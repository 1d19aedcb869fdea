-- ===== src/BookClient/Transport/Sending.antt =====
-- PCom3/helpers.c: `send_to_server`, which writes a message to a socket in pieces.
use pcom_assignments.Prelude.{
  ℕ, zero, suc, ◌+◌, ◌-◌, ◌^◌, ◌≤◌, ◌<◌, ◌≡◌, ◌∙◌, refl, ap, arith, [], ◌∷◌, ◌++◌, Option, none,
  some, ◌%◌, le→leb, length-append, ◌==◌, ne→not_==, ltb, lt→ltb, le→not_ltb, if◌then◌else◌, length,
  take, drop, take-append-drop, length-drop,
}
use native.Mathlib.Decide.{dec_lt}
use pcom_assignments.Prelude.Int.{
  ℤ, pos, negsuc, sub_ℕ, ltb_ℤ, to_int, add_int, to_int_small, add_int_small,
}
use pcom_assignments.Prelude.Run.{Run, done, fault, out_of_fuel, overflow, out_of_bounds, ◌>>=◌}
use pcom_assignments.Prelude.Texts.{Text}
use pcom_assignments.BookClient.Transport.{to_size}

-- The result of a `write`: an error, or how many bytes it takes at most.
pub data Write : Type 0 where
  refused : Write
  accepts : ℕ → Write

-- `total - sent`, of two ints of which the second is not negative.
abbrev pub sub_int : ℤ → ℕ → Run ℤ
sub_int (pos t) sent = done (sub_ℕ t sent)
sub_int (negsuc t) sent =
    if ltb (t + sent) (2 ^ 31) then done (negsuc (t + sent)) else fault overflow

-- `write` to the socket of `count` bytes at most from the cells of the message.
abbrev pub written : (accepted count : ℕ) → ℕ
written accepted count = if ltb accepted count then accepted else count

-- What a round leaves: the bytes that it has written, and whether and from where the loop goes on.
pub record Round : Type 0 where
  pub bytes : Text
  pub next : Option ℕ

-- The rest of a round, from what `write` returns on; `none` is the end of the process by `error`.
abbrev pub after_write : (cells : Text) → (total : ℤ) → (sent : ℕ) → ℤ → Run (Option Round)
after_write cells total sent (negsuc n) = done none
after_write cells total sent (pos bytes) =
    if bytes == 0
    then done (some (record { bytes = []; next = none }))
    else if ltb (length cells) bytes
    then fault out_of_bounds
    else (do
      sent' ← add_int sent bytes
      done (
          some (record {
            bytes = take bytes cells;
            next = if ltb_ℤ (pos sent') total then some sent' else none;
          })))

-- A round of the loop. `cells` are the message from `sent` on, its NUL character included.
unfoldable pub write_round : Write → (cells : Text) → (total : ℤ) → (sent : ℕ) → Run (Option Round)
write_round refused cells total sent = done none
write_round (accepts accepted) cells total sent = do
  count ← sub_int total sent
  after_write cells total sent (to_int (pos (written accepted (to_size count))))

abbrev pub behind : Text → Option Text → Option Text
behind bytes none = none
behind bytes (some more) = some (bytes ++ more)

-- `do ... while (sent < total)`, for at most `fuel` rounds, of which `writes n` is the next result.
unfoldable pub send_loop :
    (fuel : ℕ)
    → (writes : ℕ → Write) → (n : ℕ) → (cells : Text) → (total : ℤ) → (sent : ℕ) → Run (Option Text)
send_loop zero writes n cells total sent = fault out_of_fuel
send_loop (suc fuel) writes n cells total sent = do
  o ← write_round (writes n) cells total sent
  elim o [
    | none ↦ done none
    | some r ↦ elim r.next [
      | none ↦ done (some r.bytes)
      | some sent' ↦ do
        more ← send_loop fuel writes (n + 1) (drop (length r.bytes) cells) total sent'
        done (behind r.bytes more)
    ]
  ]

-- The bytes that are written.
unfoldable pub send_to_server :
    (fuel : ℕ) → (message : Text) → (writes : ℕ → Write) → Run (Option Text)
send_to_server fuel message writes =
    send_loop fuel writes 0 (message ++ 0 ∷ []) (to_int (pos (length message))) 0

-- Every `write` takes at least a byte.
abbrev pub Accepts : (ℕ → Write) → Type 0
Accepts writes = (n : ℕ) → (k : ℕ) × (0 < k) × (writes n ≡ accepts k)

-- The NUL character is not written.
take-nul : (n : ℕ) (xs : Text) → n ≤ length xs → take n (xs ++ 0 ∷ []) ≡ take n xs
take-nul zero xs le = refl
take-nul (suc n) [] le = absurd (omega (arith, le))
take-nul (suc n) (x ∷ xs) le = ap (◌∷◌ x) (take-nul n xs (omega (arith, le)))

drop-nul : (n : ℕ) (xs : Text) → n ≤ length xs → drop n (xs ++ 0 ∷ []) ≡ drop n xs ++ 0 ∷ []
drop-nul zero xs le = refl
drop-nul (suc n) [] le = absurd (omega (arith, le))
drop-nul (suc n) (x ∷ xs) le = drop-nul n xs (omega (arith, le))

take_all : (xs : Text) → take (length xs) xs ≡ xs
take_all [] = refl
take_all (x ∷ xs) = ap (◌∷◌ x) (take_all xs)

length-take_part : (n : ℕ) (xs : Text) → n ≤ length xs → length (take n xs) ≡ n
length-take_part zero xs le = refl
length-take_part (suc n) [] le = absurd (omega (arith, le))
length-take_part (suc n) (x ∷ xs) le = ap suc (length-take_part n xs (omega (arith, le)))

-- A round that takes at least a byte.
write_round-accepts :
    (k sent : ℕ) (left : Text)
    → 0 < k
    → sent + length left < 2 ^ 31
    → write_round (accepts k) (left ++ 0 ∷ []) (pos (sent + length left)) sent
      ≡ done (
          some (
            if ltb k (length left)
            then record { bytes = take k left; next = some (sent + k) }
            else record { bytes = left; next = none }))
unfolding write_round
write_round-accepts k sent [] takes fits =
    let none_left : sent + 0 - sent ≡ 0 = omega arith in
    let none_written : to_int (pos (written k 0)) ≡ pos 0 =
      rw (le→not_ltb 0 k (omega arith)) refl in
    rw (le→leb sent (sent + 0) (omega arith), none_left)
      (ap (after_write (0 ∷ []) (pos (sent + 0)) sent) none_written
        ∙ rw (le→not_ltb 0 k (omega arith)) refl)
write_round-accepts k sent (c ∷ rest) takes fits =
    let left = c ∷ rest in
    let size : length left % 2 ^ 64 ≡ length left = omega (arith, fits) in
    let left_over : sent + length left - sent ≡ length left = omega arith in
    let cells = length-append left (0 ∷ []) in
    elim (dec_lt k (length left)) [
      | yes part ↦
          rw
            (
              le→leb sent (sent + length left) (omega arith),
              left_over,
              size,
              lt→ltb k (length left) part,
              to_int_small k (omega (arith, part, fits)),
              ne→not_== k 0 (omega (arith, takes)),
              le→not_ltb k (length (left ++ 0 ∷ [])) (omega (arith, part, cells)),
              add_int_small sent k (omega (arith, part, fits)),
              lt→ltb (sent + k + 0) (sent + length left + 0) (omega (arith, part)),
              take-nul k left (omega (arith, part)),
            )
            refl
      | no whole ↦
          rw
            (
              le→leb sent (sent + length left) (omega arith),
              left_over,
              size,
              le→not_ltb (length left) k (omega (arith, whole)),
              to_int_small (length left) (omega (arith, fits)),
              le→not_ltb (length left) (length (left ++ 0 ∷ [])) (omega (arith, cells)),
              add_int_small sent (length left) fits,
              take-nul (length left) left (omega arith),
              le→not_ltb (sent + length left + 0) (sent + length left + 0) (omega arith),
              ne→not_== (length left) 0 (omega arith),
              take_all left,
            )
            refl
    ]

module _ (writes : ℕ → Write) (accepting : Accepts writes) where
  -- As many rounds as there are bytes to write are enough.
  send_loop_all :
      (fuel n sent : ℕ) (left : Text)
      → 0 < fuel
      → length left ≤ fuel
      → sent + length left < 2 ^ 31
      → send_loop fuel writes n (left ++ 0 ∷ []) (pos (sent + length left)) sent ≡ done (some left)
  unfolding send_loop
  send_loop_all zero n sent left some_fuel enough fits = absurd (omega (arith, some_fuel))
  send_loop_all (suc fuel) n sent left some_fuel enough fits =
      let (k, takes, at) = accepting n in
      let round = write_round-accepts k sent left takes fits in
      elim (dec_lt k (length left)) [
        | yes part ↦
            let total : sent + length left ≡ sent + k + length (drop k left) =
              omega (arith, part, length-drop k left) in
            let rest =
              send_loop_all fuel (n + 1) (sent + k) (drop k left)
                (omega (arith, part, takes, enough))
                (omega (arith, part, takes, enough, length-drop k left))
                (omega (arith, total, fits)) in
            let rest' : send_loop fuel writes (n + 1) (drop k (left ++ 0 ∷ []))
                  (pos (sent + length left)) (sent + k)
                ≡ done (some (drop k left)) =
              rw (total, drop-nul k left (omega (arith, part))) rest in
            rw
              (
                at,
                round,
                lt→ltb k (length left) part,
                length-take_part k left (omega (arith, part)),
                rest',
              )
              (ap (λ (t : Text). done (some t)) (take-append-drop k left))
        | no whole ↦ rw (at, round, le→not_ltb (length left) k (omega (arith, whole))) refl
      ]

  -- A message of less than 2 ^ 31 bytes, and any results of `write` that take at least a byte each: in
  -- at most as many rounds as the message has bytes, or one for the empty message, `send_to_server`
  -- ends and has written all of the message, nothing twice and nothing behind it.
  pub send_to_server_all :
      (message : Text) (fuel : ℕ)
      → length message < 2 ^ 31
      → 0 < fuel
      → length message ≤ fuel
      → send_to_server fuel message writes ≡ done (some message)
  unfolding send_to_server
  send_to_server_all message fuel fits some_fuel enough =
      let nothing : 0 + length message ≡ length message = omega arith in
      rw (to_int_small (length message) fits)
        (rw nothing at (send_loop_all fuel 0 0 message some_fuel enough (omega (arith, fits))))
