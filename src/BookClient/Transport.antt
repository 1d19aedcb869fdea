-- ===== src/BookClient/Transport.antt =====
-- PCom3/helpers.c: `receive_from_server`, which collects a response from the reads of a socket.
pub mod Framing
pub mod Sending
use pcom_assignments.Prelude.{
  ℕ, zero, suc, ◌+◌, ◌-◌, ◌%◌, ◌^◌, List, [], ◌∷◌, ◌++◌, Option, none, some, ltb, if◌then◌else◌,
  drop, length,
}
use pcom_assignments.Prelude.Int.{ℤ, pos, negsuc, to_int, add_int}
use pcom_assignments.Prelude.Run.{Run, done, null_pointer, uninitialised, ◌>>=◌, require}
use pcom_assignments.BookClient.Buffer.{
  Block, Buffer, buffer_init, buffer_add, buffer_find, buffer_find_insensitive,
}

-- The results of `read` on the socket, in order; behind the last one the connection is closed and
-- `read` returns 0.
pub data Read : Type 0 where
  failed : Read
  received : List ℕ → Read

-- "\r\n\r\n"
abbrev pub header_terminator : List ℕ
header_terminator = 13 ∷ 10 ∷ 13 ∷ 10 ∷ []

-- "Content-Length: "
abbrev pub content_length_text : List ℕ
content_length_text =
    67 ∷ 111 ∷ 110 ∷ 116 ∷ 101 ∷ 110 ∷ 116 ∷ 45 ∷ 76 ∷ 101 ∷ 110 ∷ 103 ∷ 116 ∷ 104 ∷ 58 ∷ 32 ∷ []

-- The bytes of a block.
abbrev pub all_written : Block → Option (List ℕ)
all_written [] = some []
all_written (none ∷ cells) = none
all_written (some x ∷ cells) = elim (all_written cells) [ none ↦ none | some xs ↦ some (x ∷ xs) ]

unfoldable pub contents : Buffer → Run (List ℕ)
contents b = do cells ← require null_pointer b.block; require uninitialised (all_written cells)

-- What the first loop leaves: the buffer, `header_end`, `content_length` and the reads to come.
pub record Head : Type 0 where
  pub buffer : Buffer
  pub header_end : ℤ
  pub content_length : ℤ
  pub rest : List Read

-- An int as a `size_t`.
abbrev pub to_size : ℤ → ℕ
to_size (pos n) = n % 2 ^ 64
to_size (negsuc n) = 2 ^ 64 - suc n

-- `while (buffer.size < total)`
unfoldable pub body_loop : (total : ℕ) → List Read → Buffer → Run (Option Buffer)
body_loop total [] b = done (some b)
body_loop total (failed ∷ reads) b = if ltb b.size total then done none else done (some b)
body_loop total (received [] ∷ reads) b = done (some b)
body_loop total (received (x ∷ xs) ∷ reads) b =
    let rest = buffer_add b (x ∷ xs) >>= λ b'. body_loop total reads b' in
    if ltb b.size total then rest else done (some b)

-- `strtol` is what `strtol(s, NULL, 10)` gives for the bytes from `s` on to the end of the buffer,
-- a long, and `tolower` is that of the C library. `none` stands for the end of the process by
-- `error`.
module _ (tolower : ℕ → ℕ) (strtol : List ℕ → ℤ) where
  -- The value of the content length field, if the buffer has one.
  unfoldable pub length_field : Buffer → Run (Option ℤ)
  length_field b = do
    start ← buffer_find_insensitive tolower b content_length_text
    elim start [
      | negsuc n ↦ done none
      | pos s ↦ do
        from ← add_int s 16
        bytes ← contents b
        done (some (to_int (strtol (drop from bytes))))
    ]

  -- What the first loop finds in the buffer behind a read: `header_end`, and the content length, or
  -- `none` if the loop goes on.
  unfoldable pub look : Buffer → Run (ℤ × Option ℤ)
  look b = do
    found ← buffer_find b header_terminator
    elim found [
      | negsuc n ↦ done (negsuc n, none)
      | pos i ↦ do
        header_end ← add_int i 4
        content_length ← length_field b
        done (pos header_end, content_length)
    ]

  unfoldable pub head_loop : List Read → Buffer → (header_end : ℤ) → Run (Option Head)
  head_loop [] b header_end =
      done
        (some (record { buffer = b; header_end = header_end; content_length = pos 0; rest = [] }))
  head_loop (failed ∷ reads) b header_end = done none
  head_loop (received [] ∷ reads) b header_end =
      done (
        some (record { buffer = b; header_end = header_end; content_length = pos 0; rest = reads }))
  head_loop (received (x ∷ xs) ∷ reads) b header_end = do
    b' ← buffer_add b (x ∷ xs)
    (header_end', content_length) ← look b'
    let more = head_loop reads b' header_end'
    elim content_length [
      | none ↦ more
      | some n ↦ done (
          some (record { buffer = b'; header_end = header_end'; content_length = n; rest = reads }))
    ]

  -- The bytes that `buffer.data` has at the end, the NUL character included.
  unfoldable pub receive_from_server : List Read → Run (Option (List ℕ))
  receive_from_server reads = do
    head ← head_loop reads buffer_init (pos 0)
    elim head [
      | none ↦ done none
      | some h ↦ do
        let total = (to_size h.content_length + to_size h.header_end) % 2 ^ 64
        full ← body_loop total h.rest h.buffer
        elim full [
          | none ↦ done none
          | some b ↦ do b' ← buffer_add b (0 ∷ []); bytes ← contents b'; done (some bytes)
        ]
    ]
