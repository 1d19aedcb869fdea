-- ===== src/BookClient/Examples.antt =====
-- PCom3/helpers.c: the theorem on receiving at a concrete response.
pub mod Requests
pub mod Session
pub mod Visits
use mathlib.Core.Path.{subst}
use pcom_assignments.Prelude.{
  ℕ, zero, suc, ◌+◌, ◌-◌, ◌*◌, ◌≤◌, ◌≡◌, refl, ap, arith, List, [], ◌∷◌, ◌++◌, some, leb,
  if◌then◌else◌, drop, get_elem?, length,
}
use pcom_assignments.Prelude.Int.{ℤ, pos}
use pcom_assignments.Prelude.Run.{done, Returns, Returns-done}
use pcom_assignments.BookClient.Buffer.{
  Buffer, buffer_add, cell, matches_from, find_from, find_index,
}
use pcom_assignments.BookClient.Buffer.Holds.{Collects, buffer_add-Collects}
use pcom_assignments.BookClient.Buffer.Find.{FirstAt, find_index-FirstAt}
use pcom_assignments.BookClient.Transport.{
  failed, header_terminator, content_length_text, receive_from_server,
}
use pcom_assignments.BookClient.Transport.Framing.{IsResponse, chunks, receive_from_server-joined}
use pcom_assignments.BookClient.Transport.Framing.Prefix.{elem_down}

-- Capital letters to small ones.
abbrev tolower : ℕ → ℕ
tolower c = if leb 65 c then if leb c 90 then c + 32 else c else c

-- "Content-Length: 2\r\n\r\nok"
abbrev response : List ℕ
response =
    67 ∷ 111 ∷ 110 ∷ 116 ∷ 101 ∷ 110 ∷ 116 ∷ 45 ∷ 76 ∷ 101 ∷ 110 ∷ 103 ∷ 116 ∷ 104 ∷ 58 ∷ 32 ∷ 50
    ∷ 13 ∷ 10 ∷ 13 ∷ 10 ∷ 111 ∷ 107 ∷ []

abbrev response_buffer : Buffer
response_buffer = record {
  block = some (
      some 67
      ∷ some 111
      ∷ some 110
      ∷ some 116
      ∷ some 101
      ∷ some 110
      ∷ some 116
      ∷ some 45
      ∷ some 76
      ∷ some 101
      ∷ some 110
      ∷ some 103
      ∷ some 116
      ∷ some 104
      ∷ some 58
      ∷ some 32
      ∷ some 50
      ∷ some 13
      ∷ some 10
      ∷ some 13
      ∷ some 10
      ∷ some 111
      ∷ some 107
      ∷ []);
  size = 23;
}

response_buffer-Collects : Collects response_buffer response
response_buffer-Collects = record { bytes = refl; counted = refl }

-- The number at the start of a text.
abbrev digits : (acc : ℕ) → List ℕ → ℕ
digits acc [] = acc
digits acc (c ∷ cs) =
    let more = digits (acc * 10 + (c - 48)) cs in
    if leb 48 c then if leb c 57 then more else acc else acc

abbrev strtol : List ℕ → ℤ
strtol cs = pos (digits 0 cs)

found_end : find_index (λ c. c) response_buffer header_terminator ≡ done (some 17)
unfolding find_index find_from matches_from cell
found_end = refl

found_length : find_index tolower response_buffer content_length_text ≡ done (some 0)
unfolding find_index find_from matches_from cell
found_length = refl

drop_elem : (ys : List ℕ) (n x : ℕ) → get_elem? ys n ≡ some x → drop n ys ≡ x ∷ drop (suc n) ys
drop_elem [] n x at = absurd cc
drop_elem (y ∷ ys) zero x at = ground arith
drop_elem (y ∷ ys) (suc n) x at = drop_elem ys n x at

response_tells :
    (ys zs : List ℕ) → ys ++ zs ≡ response → 21 ≤ length ys → strtol (drop 16 ys) ≡ pos 2
response_tells ys zs cut long =
    rw
      (
        drop_elem ys 16 50
            (elem_down ys zs 16 50 (omega (arith, long)) (ap (λ (l : List ℕ). get_elem? l 16) cut)),
        drop_elem ys 17 13
            (elem_down ys zs 17 13 (omega (arith, long)) (ap (λ (l : List ℕ). get_elem? l 17) cut)),
      )
      refl

response-IsResponse : IsResponse tolower strtol 17 0 2 response
response-IsResponse = record {
  header_at = Returns-done (
      subst (Returns (FirstAt (λ c. c) header_terminator response)) found_end (
        find_index-FirstAt (λ c. c) response_buffer response header_terminator
          response_buffer-Collects));
  length_at = Returns-done (
      subst (Returns (FirstAt tolower content_length_text response)) found_length (
        find_index-FirstAt tolower response_buffer response content_length_text
          response_buffer-Collects));
  inside = omega arith;
  tells = response_tells;
  whole = refl;
  fits = omega arith;
}

-- The response in four reads, with a failing read behind them.
abbrev reads : List (ℕ × List ℕ)
reads =
    (67, 111 ∷ 110 ∷ 116 ∷ 101 ∷ 110 ∷ 116 ∷ 45 ∷ 76 ∷ [])
    ∷ (101, 110 ∷ 103 ∷ 116 ∷ 104 ∷ 58 ∷ 32 ∷ 50 ∷ 13 ∷ [])
    ∷ (10, 13 ∷ 10 ∷ 111 ∷ [])
    ∷ (107, [])
    ∷ []

receive_from_server-joined_example :
    receive_from_server tolower strtol (chunks reads ++ failed ∷ [])
    ≡ done (some (response ++ 0 ∷ []))
receive_from_server-joined_example =
    receive_from_server-joined tolower strtol 17 0 2 response response-IsResponse reads
      (failed ∷ []) refl
