-- ===== src/BookClient/Session/Ids.antt =====
-- PCom3/client.c: the id of a book, from the input to the request.
use mathlib.Core.Bool.{false≢true}
use pcom_assignments.Prelude.{
  ℕ, zero, suc, ◌+◌, ◌*◌, ◌/◌, ◌%◌, ◌^◌, ◌<◌, ◌≡◌, ◌≢◌, sym, refl, ◌∙◌, ap, arith, [], ◌∷◌, ◌++◌,
  true, false, none, some, inl, inr, Bool-cases, ◌==◌, ==_iff, lt→ltb, length,
}
use pcom_assignments.Prelude.Int.{pos}
use pcom_assignments.Prelude.Run.{done}
use pcom_assignments.Prelude.Texts.{Text, text}
use pcom_assignments.BookClient.Stdio.{
  digits, decimal, decimal_ℤ, read_digits, starts_digit, scan_digits, scan_int,
}
use pcom_assignments.BookClient.Requests.{linelen, buflen}
use pcom_assignments.BookClient.Requests.Fits.{
  put_lem, unlines, request_lines, get_line, AreShort, compute_get_request-unlines,
}
use pcom_assignments.BookClient.Session.{
  Json, Console, books_path, print_response, clear_stdin, read_id,
}
use pcom_assignments.BookClient.Session.Commands.{book_path, on_get_book}

-- Every number below has a run of that many digits.
abbrev tens : ℕ → ℕ
tens zero = 1
tens (suc k) = 10 * tens k

==_false : (a b : ℕ) → (a == b) ≡ false → a ≢ b
==_false a b differ same = false≢true (sym differ ∙ (==_iff a b).1 same)

-- A digit as it is read.
read_digit :
    (v d : ℕ) (rest : Text)
    → d < 10
    → read_digits v ((48 + d) ∷ rest) ≡ read_digits (10 * v + d) rest
read_digit v d rest lt = ground arith

-- A number below 10 is its digit.
last_digit :
    (n : ℕ) (rest : Text) → n / 10 ≡ 0 → read_digits 0 ((48 + n % 10) ∷ rest) ≡ read_digits n rest
last_digit n rest small =
    read_digit 0 (n % 10) rest (omega arith)
    ∙ ap (λ (v : ℕ). read_digits v rest) (omega (arith, small))

-- The digits of a number, read behind nothing, are the number.
read_digits-digits :
    (fuel n : ℕ) (rest : Text)
    → n < tens (suc fuel)
    → read_digits 0 (digits (suc fuel) n rest) ≡ read_digits n rest
unfolding digits
read_digits-digits zero n rest lt = elim (Bool-cases (n / 10 == 0)) [
  | inl one ↦ rw one (last_digit n rest ((==_iff (n / 10) 0).0 one))
  | inr more ↦ absurd (==_false (n / 10) 0 more (omega (arith, lt)))
]
read_digits-digits (suc fuel) n rest lt = elim (Bool-cases (n / 10 == 0)) [
  | inl one ↦ rw one (last_digit n rest ((==_iff (n / 10) 0).0 one))
  | inr more ↦ rw more (
      read_digits-digits fuel (n / 10) ((48 + n % 10) ∷ rest) (omega (arith, lt))
      ∙ read_digit (n / 10) (n % 10) rest (omega arith)
      ∙ ap (λ (v : ℕ). read_digits v rest) (omega arith))
]

-- The first character is a digit.
HasDigit : Text → Type 0
HasDigit s = (d : ℕ) × (rest : Text) × (d < 10) × (s ≡ (48 + d) ∷ rest)

digits-HasDigit :
    (fuel n : ℕ) (rest : Text) → n < tens (suc fuel) → HasDigit (digits (suc fuel) n rest)
unfolding digits HasDigit
digits-HasDigit zero n rest lt = elim (Bool-cases (n / 10 == 0)) [
  | inl one ↦ rw one (n % 10, rest, omega arith, refl)
  | inr more ↦ absurd (==_false (n / 10) 0 more (omega (arith, lt)))
]
digits-HasDigit (suc fuel) n rest lt = elim (Bool-cases (n / 10 == 0)) [
  | inl one ↦ rw one (n % 10, rest, omega arith, refl)
  | inr more ↦ rw more (digits-HasDigit fuel (n / 10) ((48 + n % 10) ∷ rest) (omega (arith, lt)))
]

digits-append : (fuel n : ℕ) (s rest : Text) → digits fuel n s ++ rest ≡ digits fuel n (s ++ rest)
unfolding digits
digits-append zero n s rest = refl
digits-append (suc fuel) n s rest = elim (Bool-cases (n / 10 == 0)) [
  | inl one ↦ rw one refl
  | inr more ↦ rw more (digits-append fuel (n / 10) ((48 + n % 10) ∷ s) rest)
]

-- A digit is neither a space nor a sign.
scan_int_digit :
    (d : ℕ) (more : Text)
    → d < 10
    → scan_int ((48 + d) ∷ more) ≡ scan_digits false ((48 + d) ∷ more)
scan_int_digit d more small = ground (arith, small)

-- The digits of an int are scanned up to the line feed.
scan_int-digits :
    (n : ℕ) (rest : Text)
    → n < 2 ^ 31
    → scan_int (digits 20 n (10 ∷ rest)) ≡ done (some (pos n), 10 ∷ rest)
unfolding HasDigit
scan_int-digits n rest lt =
    let (d, more, small, at) = digits-HasDigit 19 n (10 ∷ rest) (omega (arith, lt)) in
    let starts : starts_digit (digits 20 n (10 ∷ rest)) ≡ true = rw at (ground (arith, small)) in
    let scans : scan_digits false (digits 20 n (10 ∷ rest)) ≡ done (some (pos n), 10 ∷ rest) =
      rw (starts, read_digits-digits 19 n (10 ∷ rest) (omega (arith, lt)), lt→ltb n (2 ^ 31) lt)
        refl in
    ap scan_int at ∙ scan_int_digit d more small ∙ ap (scan_digits false) (sym at) ∙ scans

-- An id that is an int and no less than 0, as the client itself prints it, is read from its line, and
-- nothing behind the line.
pub read_id-decimal :
    (con : Console) (n : ℕ) (rest : Text)
    → n < 2 ^ 31
    → con.input ≡ decimal n ++ 10 ∷ rest
    → read_id con ≡ done (pos n, record con { input = rest })
unfolding read_id clear_stdin decimal
read_id-decimal con n rest lt at =
    rw (at, digits-append 20 n [] (10 ∷ rest), scan_int-digits n rest lt) refl

module _ (json : Json) (host : Text) where
  -- For a session with a cookie and a token, an input that begins with a line of the decimal
  -- digits of a number below 2 ^ 31, a request whose lines fit and a response that is printed:
  -- `on_get_book` returns, asks for the book with this number, with the cookie and the token, and
  -- reads nothing behind the line.
  pub on_get_book-decimal :
      (con : Console) (cookie token : Text) (n : ℕ) (rest : Text)
      → n < 2 ^ 31
      → con.input ≡ decimal n ++ 10 ∷ rest
      → length (books_path ++ (text "/" ++ decimal n)) < linelen
      → AreShort (
          request_lines
            (get_line (books_path ++ (text "/" ++ decimal n)) none)
            host
            (some (cookie ∷ []))
            (some token))
      → length (
          unlines (
            request_lines
              (get_line (books_path ++ (text "/" ++ decimal n)) none)
              host
              (some (cookie ∷ []))
              (some token)))
        < buflen
      → (response shown : Text) → print_response json response ≡ done shown
      → on_get_book json host (record { cookie = some cookie; jwt = some token }) con response
        ≡ done (record {
          session = record { cookie = some cookie; jwt = some token };
          console = record con { input = rest };
          request = some (
              unlines (
                request_lines
                  (get_line (books_path ++ (text "/" ++ decimal n)) none)
                  host
                  (some (cookie ∷ []))
                  (some token)));
          printed = text "id=" ++ shown;
          running = true;
        })
  unfolding on_get_book book_path decimal_ℤ
  on_get_book-decimal con cookie token n rest lt at path_short short fits response shown prints =
      rw
        (
          read_id-decimal con n rest lt at,
          put_lem linelen (books_path ++ (text "/" ++ decimal n)) path_short,
          compute_get_request-unlines host (books_path ++ (text "/" ++ decimal n)) none
              (some (cookie ∷ [])) (some token) short fits,
          prints,
        )
        refl
