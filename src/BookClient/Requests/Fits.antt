-- ===== src/BookClient/Requests/Fits.antt =====
-- PCom3/requests.c: the texts of the requests, and when they fit their arrays.
use mathlib.Core.List.{append-nil, append_assoc}
use pcom_assignments.Prelude.{
  ℕ, ◌+◌, ◌≤◌, ◌<◌, ◌≡◌, refl, sym, ap, ◌∙◌, arith, List, [], ◌∷◌, ◌++◌, map, Option, none, some,
  lt→ltb, le→not_ltb, length, length-append,
}
use pcom_assignments.Prelude.Texts.{Text, text}
use pcom_assignments.Prelude.Run.{done, fault, out_of_bounds, ◌>>=◌}
use pcom_assignments.BookClient.Requests.{
  buflen, linelen, line_end, put, compute_message, add_authorization, cookie_loop, add_cookies,
  add_headers, compute_get_request, compute_delete_request,
}

-- The specification: lines with their line ends.
abbrev pub unlines : List Text → Text
unlines [] = []
unlines (l ∷ lines) = (l ++ line_end) ++ unlines lines

-- The cookies one behind the other.
abbrev pub cookie_text : List Text → Text
cookie_text [] = []
cookie_text (c ∷ cookies) = (c ++ text "; ") ++ cookie_text cookies

abbrev pub authorization_lines : Option Text → List Text
authorization_lines none = []
authorization_lines (some jwt) = (text "Authorization: Bearer " ++ jwt) ∷ []

abbrev pub cookie_lines : Option (List Text) → List Text
cookie_lines none = []
cookie_lines (some cookies) = (text "Cookie: " ++ cookie_text cookies) ∷ []

-- The lines of a request, the empty one at its end included.
abbrev pub request_lines : (first host : Text) → Option (List Text) → Option Text → List Text
request_lines first host cookies jwt =
    first ∷ (text "Host: " ++ host) ∷ authorization_lines jwt ++ (cookie_lines cookies ++ [] ∷ [])

abbrev pub AreShort : List Text → Type 0
AreShort [] = Unit {0}
AreShort (l ∷ lines) = (length l < linelen) × AreShort lines

pub put_lem : (capacity : ℕ) (t : Text) → length t < capacity → put capacity t ≡ done t
unfolding put
put_lem capacity t lt = rw (lt→ltb (length t) capacity lt) refl

pub put_fault :
    (capacity : ℕ) (t : Text) → capacity ≤ length t → put capacity t ≡ fault out_of_bounds
unfolding put
put_fault capacity t le = rw (le→not_ltb capacity (length t) le) refl

pub compute_message_lem :
    (m l : Text)
    → length m + length l + 2 < buflen
    → compute_message m l ≡ done (m ++ (l ++ line_end))
unfolding compute_message
compute_message_lem m l fits =
    rw
      (
        put_lem buflen (m ++ l) (omega (arith, length-append m l)),
        put_lem buflen ((m ++ l) ++ line_end)
            (omega (arith, length-append (m ++ l) line_end, length-append m l)),
      )
      (ap done (append_assoc m l line_end))

cookie_loop_lem :
    (line : Text) (cookies : List Text)
    → length line + length (cookie_text cookies) < linelen
    → cookie_loop line (map some cookies) ≡ done (line ++ cookie_text cookies)
unfolding cookie_loop
cookie_loop_lem line [] fits = ap done (sym (append-nil line))
cookie_loop_lem line (c ∷ cookies) fits =
    let part = length-append (c ++ text "; ") (cookie_text cookies) in
    let next = length-append line (c ++ text "; ") in
    rw (put_lem linelen (line ++ (c ++ text "; ")) (omega (arith, part, next))) (
      cookie_loop_lem (line ++ (c ++ text "; ")) cookies (omega (arith, part, next))
      ∙ ap done (append_assoc line (c ++ text "; ") (cookie_text cookies)))

pub unlines-append : (a b : List Text) → unlines (a ++ b) ≡ unlines a ++ unlines b
unlines-append [] b = refl
unlines-append (l ∷ a) b =
    ap (◌++◌ (l ++ line_end)) (unlines-append a b)
    ∙ sym (append_assoc (l ++ line_end) (unlines a) (unlines b))

pub AreShort-append : (a b : List Text) → AreShort (a ++ b) → AreShort a × AreShort b
AreShort-append [] b short = (tt, short)
AreShort-append (l ∷ a) b short =
    let rest = AreShort-append a b short.1 in ((short.0, rest.0), rest.1)

-- Cookies none of which is NULL.
abbrev pub known : Option (List Text) → Option (List (Option Text))
known none = none
known (some cookies) = some (map some cookies)

pub authorization_lem :
    (m : Text) (jwt : Option Text)
    → AreShort (authorization_lines jwt)
    → length m + length (unlines (authorization_lines jwt)) < buflen
    → add_authorization m jwt ≡ done (m ++ unlines (authorization_lines jwt))
unfolding add_authorization
authorization_lem m none short fits = ap done (sym (append-nil m))
authorization_lem m (some jwt) short fits =
    let line = text "Authorization: Bearer " ++ jwt in
    rw (put_lem linelen line short.0) (
      compute_message_lem m line
        (omega (arith, fits, length-append (line ++ line_end) [], length-append line line_end))
      ∙ ap (λ (t : Text). done (m ++ t)) (sym (append-nil (line ++ line_end))))

pub cookies_lem :
    (m : Text) (cookies : Option (List Text))
    → AreShort (cookie_lines cookies)
    → length m + length (unlines (cookie_lines cookies)) < buflen
    → add_cookies m (known cookies) ≡ done (m ++ unlines (cookie_lines cookies))
unfolding add_cookies
cookies_lem m none short fits = ap done (sym (append-nil m))
cookies_lem m (some cookies) short fits =
    let line = text "Cookie: " ++ cookie_text cookies in
    rw
      (
        put_lem linelen (text "Cookie: ") (omega arith),
        cookie_loop_lem (text "Cookie: ") cookies (omega (arith, short.0)),
      )
      (compute_message_lem m line
          (omega (arith, fits, length-append (line ++ line_end) [], length-append line line_end))
        ∙ ap (λ (t : Text). done (m ++ t)) (sym (append-nil (line ++ line_end))))

module _ (m host : Text) (cookies : Option (List Text)) (jwt : Option Text) where
  abbrev host_line : Text
  host_line = text "Host: " ++ host

  abbrev header_lines : List Text
  header_lines = host_line ∷ authorization_lines jwt ++ (cookie_lines cookies ++ [] ∷ [])

  unlines_parts :
      unlines header_lines
      ≡ (host_line ++ line_end)
        ++ (unlines (authorization_lines jwt) ++ (unlines (cookie_lines cookies) ++ line_end))
  unlines_parts = ap (◌++◌ (host_line ++ line_end)) (
      unlines-append (authorization_lines jwt) (cookie_lines cookies ++ [] ∷ [])
      ∙ ap (◌++◌ (unlines (authorization_lines jwt)))
          (unlines-append (cookie_lines cookies) ([] ∷ [])))

  headers_lem :
      AreShort header_lines
      → length m + length (unlines header_lines) < buflen
      → add_headers m host (known cookies) jwt ≡ done (m ++ unlines header_lines)
  unfolding add_headers
  headers_lem short fits =
      let h = host_line ++ line_end in
      let a = unlines (authorization_lines jwt) in
      let c = unlines (cookie_lines cookies) in
      let behind =
        AreShort-append (authorization_lines jwt) (cookie_lines cookies ++ [] ∷ []) short.1 in
      let inner = AreShort-append (cookie_lines cookies) ([] ∷ []) behind.1 in
      let total : length m + (length host_line + 2 + (length a + (length c + 2))) < buflen = omega (
        arith,
        fits,
        ap length unlines_parts,
        length-append h (a ++ (c ++ line_end)),
        length-append a (c ++ line_end),
        length-append c line_end,
        length-append host_line line_end,
      ) in
      let len₁ = length-append m h in
      let len₂ = length-append (m ++ h) a in
      let len₃ = length-append ((m ++ h) ++ a) c in
      let len = length-append host_line line_end in
      rw
        (
          put_lem linelen host_line short.0,
          compute_message_lem m host_line (omega (arith, total)),
          authorization_lem (m ++ h) jwt behind.0 (omega (arith, total, len₁, len)),
          cookies_lem ((m ++ h) ++ a) cookies inner.0 (omega (arith, total, len₁, len₂, len)),
        )
        (compute_message_lem (((m ++ h) ++ a) ++ c) [] (omega (arith, total, len₁, len₂, len₃, len))
          ∙ ap done (
              append_assoc ((m ++ h) ++ a) c line_end
              ∙ append_assoc (m ++ h) a (c ++ line_end)
              ∙ append_assoc m h (a ++ (c ++ line_end))
              ∙ ap (◌++◌ m) (sym unlines_parts)))

-- The first line of a GET request.
abbrev pub get_line : (url : Text) → Option Text → Text
get_line url (some query) = text "GET " ++ (url ++ (text "?" ++ (query ++ text " HTTP/1.1")))
get_line url none = text "GET " ++ (url ++ text " HTTP/1.1")

abbrev pub delete_line : (url : Text) → Text
delete_line url = text "DELETE " ++ (url ++ text " HTTP/1.1")

first_lem :
    (first host : Text) (cookies : Option (List Text)) (jwt : Option Text)
    → AreShort (request_lines first host cookies jwt)
    → length (unlines (request_lines first host cookies jwt)) < buflen
    → (put linelen first >>= λ line.
        compute_message [] line >>= λ message. add_headers message host (known cookies) jwt)
      ≡ done (unlines (request_lines first host cookies jwt))
first_lem first host cookies jwt short fits =
    let rest = unlines (header_lines [] host cookies jwt) in
    let len = length-append (first ++ line_end) rest in
    let len' = length-append first line_end in
    rw
      (put_lem linelen first short.0, compute_message_lem [] first (omega (arith, fits, len, len')))
      (headers_lem (first ++ line_end) host cookies jwt short.1 (omega (arith, fits, len)))

-- If each line of the request has less than 1000 characters and all of them with their line ends
-- less than 4096, and no cookie is NULL, then `compute_get_request` returns exactly these lines.
pub compute_get_request-unlines :
    (host url : Text) (query : Option Text) (cookies : Option (List Text)) (jwt : Option Text)
    → AreShort (request_lines (get_line url query) host cookies jwt)
    → length (unlines (request_lines (get_line url query) host cookies jwt)) < buflen
    → compute_get_request host url query (known cookies) jwt
      ≡ done (unlines (request_lines (get_line url query) host cookies jwt))
unfolding compute_get_request
compute_get_request-unlines host url none cookies jwt short fits =
    first_lem (get_line url none) host cookies jwt short fits
compute_get_request-unlines host url (some query) cookies jwt short fits =
    first_lem (get_line url (some query)) host cookies jwt short fits

-- If each line of the request has less than 1000 characters and all of them with their line ends
-- less than 4096, and no cookie is NULL, then `compute_delete_request` returns exactly these lines.
pub compute_delete_request-unlines :
    (host url : Text) (cookies : Option (List Text)) (jwt : Option Text)
    → AreShort (request_lines (delete_line url) host cookies jwt)
    → length (unlines (request_lines (delete_line url) host cookies jwt)) < buflen
    → compute_delete_request host url (known cookies) jwt
      ≡ done (unlines (request_lines (delete_line url) host cookies jwt))
unfolding compute_delete_request
compute_delete_request-unlines host url cookies jwt short fits =
    first_lem (delete_line url) host cookies jwt short fits
