-- ===== src/BookClient/Requests/Faults.antt =====
-- PCom3/requests.c: the inputs on which the requests leave what C defines.
use pcom_assignments.Prelude.{
  ◌≤◌, ◌<◌, ◌≡◌, refl, arith, List, [], ◌∷◌, ◌++◌, Option, none, some, length, length-append,
}
use pcom_assignments.Prelude.Texts.{Text, text}
use pcom_assignments.Prelude.Run.{fault, out_of_bounds, null_pointer, ◌>>=◌}
use pcom_assignments.BookClient.Requests.{
  buflen, linelen, line_end, put, compute_message, cookie_loop, add_cookies, add_headers,
  compute_get_request,
}
use pcom_assignments.BookClient.Requests.Fits.{
  unlines, authorization_lines, AreShort, get_line, put_lem, put_fault, compute_message_lem,
  authorization_lem,
}

-- A request line of 1000 characters or more is written out of its array, whatever else is given.
pub compute_get_request_overflow :
    (host url : Text) (query : Option Text) (cookies : Option (List (Option Text)))
    (jwt : Option Text)
    → linelen ≤ length (get_line url query)
    → compute_get_request host url query cookies jwt ≡ fault out_of_bounds
unfolding compute_get_request
compute_get_request_overflow host url none cookies jwt long =
    rw (put_fault linelen (get_line url none) long) refl
compute_get_request_overflow host url (some query) cookies jwt long =
    rw (put_fault linelen (get_line url (some query)) long) refl

-- The lines in front of the cookies.
abbrev pub lines_before : (first host : Text) → Option Text → List Text
lines_before first host jwt = first ∷ (text "Host: " ++ host) ∷ authorization_lines jwt

null_cookie :
    (m : Text) (rest : List (Option Text)) → add_cookies m (some (none ∷ rest)) ≡ fault null_pointer
unfolding add_cookies cookie_loop
null_cookie m rest = rw (put_lem linelen (text "Cookie: ") (omega arith)) refl

null_lem :
    (first host : Text) (rest : List (Option Text)) (jwt : Option Text)
    → AreShort (lines_before first host jwt)
    → length (unlines (lines_before first host jwt)) < buflen
    → (put linelen first >>= λ line.
        compute_message [] line >>= λ message. add_headers message host (some (none ∷ rest)) jwt)
      ≡ fault null_pointer
unfolding add_headers
null_lem first host rest jwt short fits =
    let host_line = text "Host: " ++ host in
    let m = first ++ line_end in
    let a = unlines (authorization_lines jwt) in
    let len₁ = length-append m ((host_line ++ line_end) ++ a) in
    let len₂ = length-append (host_line ++ line_end) a in
    let len₃ = length-append host_line line_end in
    let len₄ = length-append first line_end in
    let len₅ = length-append m (host_line ++ line_end) in
    rw
      (
        put_lem linelen first short.0,
        compute_message_lem [] first (omega (arith, fits, len₁, len₂, len₃, len₄)),
        put_lem linelen host_line short.1.0,
        compute_message_lem m host_line (omega (arith, fits, len₁, len₂, len₃, len₄)),
        authorization_lem (m ++ (host_line ++ line_end)) jwt short.1.1
            (omega (arith, fits, len₁, len₂, len₅)),
        null_cookie ((m ++ (host_line ++ line_end)) ++ a) rest,
      )
      refl

-- If the lines in front of the cookies fit their arrays and the first cookie is NULL, as it is in
-- the client before a login, then NULL is printed as a string.
pub compute_get_request-null_cookie :
    (host url : Text) (query : Option Text) (rest : List (Option Text)) (jwt : Option Text)
    → AreShort (lines_before (get_line url query) host jwt)
    → length (unlines (lines_before (get_line url query) host jwt)) < buflen
    → compute_get_request host url query (some (none ∷ rest)) jwt ≡ fault null_pointer
unfolding compute_get_request
compute_get_request-null_cookie host url none rest jwt short fits =
    null_lem (get_line url none) host rest jwt short fits
compute_get_request-null_cookie host url (some query) rest jwt short fits =
    null_lem (get_line url (some query)) host rest jwt short fits
