-- ===== src/BookClient/Session/Cookie.antt =====
-- PCom3/client.c: the lines that are read, and the session cookie of a login.
use pcom_assignments.Prelude.{
  ℕ, zero, suc, ◌+◌, ◌-◌, ◌%◌, ◌^◌, ◌<◌, ◌≡◌, refl, ap, arith, [], ◌∷◌, ◌++◌, false, Option, none,
  some, ◌==◌, length, length-append, take,
}
use pcom_assignments.Prelude.Run.{Run, done, fault, null_pointer, ◌>>=◌}
use pcom_assignments.Prelude.Texts.{Text, text, strstr, IsString, cstr_whole}
use pcom_assignments.BookClient.Stdio.{drop_last, take_line, fgets}
use pcom_assignments.BookClient.Requests.{linelen}
use pcom_assignments.BookClient.Requests.Fits.{put_lem}
use pcom_assignments.BookClient.Session.{Console, read_line, snprintf, login_cookie}

take-append : (xs ys : Text) → take (length xs) (xs ++ ys) ≡ xs
take-append [] ys = refl
take-append (x ∷ xs) ys = ap (◌∷◌ x) (take-append xs ys)

snprintf_lem :
    (size : ℕ) (value end : Text)
    → size ≡ suc (length value)
    → length value < linelen
    → snprintf size (value ++ end) ≡ done value
snprintf_lem size value end is short =
    let n : size - 1 ≡ length value = omega (arith, is) in
    rw (n, take-append value end) (put_lem linelen value short)

-- If the response has the cookie with a name and value of less than 1000 characters, and the first
-- "; Path" of the response ends it, then that is the cookie of the session.
pub login_cookie-value :
    (old : Option Text) (response value end : Text)
    → strstr response (text "Set-Cookie: connect.sid=")
      ≡ some (text "Set-Cookie: " ++ (value ++ end))
    → strstr response (text "; Path") ≡ some end
    → length value < linelen
    → length end < 2 ^ 63
    → login_cookie old response ≡ done (some value)
unfolding login_cookie
login_cookie-value old response value end has_cookie has_path short bound =
    let size : (length (text "Set-Cookie: " ++ (value ++ end)) + 2 ^ 64 - 12 - length end + 1)
          % 2 ^ 64
        ≡ suc (length value) =
      omega (arith, bound, short, length-append value end) in
    rw (has_cookie, has_path)
      (ap (λ (r : Run Text). r >>= λ new. done (some new))
        (snprintf_lem
          ((length (text "Set-Cookie: " ++ (value ++ end)) + 2 ^ 64 - 12 - length end + 1) % 2 ^ 64)
          value end size short))

-- A response with the cookie and without "; Path" makes the client measure a NULL pointer.
pub login_cookie-null_pointer :
    (old : Option Text) (response param : Text)
    → strstr response (text "Set-Cookie: connect.sid=") ≡ some param
    → strstr response (text "; Path") ≡ none
    → login_cookie old response ≡ fault null_pointer
unfolding login_cookie
login_cookie-null_pointer old response param has_cookie no_path = rw (has_cookie, no_path) refl

drop_last-append : (line : Text) (c : ℕ) → drop_last (line ++ c ∷ []) ≡ line
drop_last-append [] c = refl
drop_last-append (a ∷ []) c = refl
drop_last-append (a ∷ b ∷ line) c = ap (◌∷◌ a) (drop_last-append (b ∷ line) c)

-- Characters of a line: neither NUL nor a line feed.
abbrev pub IsLine : Text → Type 0
IsLine [] = Unit {0}
IsLine (c ∷ s) = (0 < c) × ((c == 10) ≡ false) × IsLine s

IsLine-IsString : (line : Text) → IsLine line → IsString (line ++ 10 ∷ [])
IsLine-IsString [] h = (omega arith, tt)
IsLine-IsString (c ∷ line) h = (h.0, IsLine-IsString line h.2)

take_line-append :
    (left : ℕ) (line rest : Text)
    → IsLine line
    → length line < left
    → take_line left (line ++ 10 ∷ rest) ≡ (line ++ 10 ∷ [], rest)
take_line-append zero line rest h fits = absurd (omega arith)
take_line-append (suc left) [] rest h fits = refl
take_line-append (suc left) (c ∷ line) rest h fits =
    rw (h.1, take_line-append left line rest h.2 (omega arith)) refl

fgets_lem :
    (buf : Option Text) (line rest : Text)
    → IsLine line
    → length line < 999
    → fgets linelen buf (line ++ 10 ∷ rest) ≡ (some (line ++ 10 ∷ []), rest)
fgets_lem buf [] rest h fits = refl
fgets_lem buf (c ∷ line) rest h fits =
    rw
      (
        take_line-append 999 (c ∷ line) rest h fits,
        cstr_whole ((c ∷ line) ++ 10 ∷ []) (IsLine-IsString (c ∷ line) h),
      )
      refl

-- A line of at most 998 characters is read without its line feed, and no more than it.
pub read_line-append :
    (con : Console) (line rest : Text)
    → IsLine line
    → length line < 999
    → con.input ≡ line ++ 10 ∷ rest
    → read_line con ≡ done (line, record { line_buf = some (line ++ 10 ∷ []); input = rest })
unfolding read_line
read_line-append con line rest h fits at =
    rw (at, fgets_lem con.line_buf line rest h fits, drop_last-append line 10) refl
