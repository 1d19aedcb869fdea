-- ===== src/BookClient/Requests.antt =====
-- PCom3/requests.c and `compute_message` of PCom3/helpers.c: the requests. A text is
-- the list of its character codes without the NUL character at its end; `none` is a NULL pointer.
pub mod Fits
pub mod Faults
pub mod Post
use pcom_assignments.Prelude.{
  ℕ, ◌+◌, List, [], ◌∷◌, ◌++◌, Option, none, some, ltb, ◌==◌, if◌then◌else◌, length,
}
use pcom_assignments.Prelude.Texts.{Text, text}
use pcom_assignments.BookClient.Stdio.{decimal, drop_last}
use pcom_assignments.Prelude.Run.{Run, done, fault, out_of_bounds, null_pointer, ◌>>=◌, require}

abbrev pub buflen : ℕ
buflen = 4096

abbrev pub linelen : ℕ
linelen = 1000

abbrev pub line_end : Text
line_end = 13 ∷ 10 ∷ []

-- A text and its NUL character are written to an array of `capacity` characters.
unfoldable pub put : (capacity : ℕ) → Text → Run Text
put capacity t = if ltb (length t) capacity then done t else fault out_of_bounds

unfoldable pub compute_message : Text → Text → Run Text
compute_message message line = do
  message' ← put buflen (message ++ line)
  put buflen (message' ++ line_end)

-- The header line of a token that is not NULL.
unfoldable pub add_authorization : Text → Option Text → Run Text
add_authorization message none = done message
add_authorization message (some jwt) = do
  line ← put linelen (text "Authorization: Bearer " ++ jwt)
  compute_message message line

-- `sprintf(line + strlen(line), "%s; ", cookies[i])` for each cookie.
unfoldable pub cookie_loop : Text → List (Option Text) → Run Text
cookie_loop line [] = done line
cookie_loop line (cookie ∷ cookies) = do
  c ← require null_pointer cookie
  line' ← put linelen (line ++ (c ++ text "; "))
  cookie_loop line' cookies

-- The header line of cookies that are not NULL.
unfoldable pub add_cookies : Text → Option (List (Option Text)) → Run Text
add_cookies message none = done message
add_cookies message (some cookies) = do
  line ← put linelen (text "Cookie: ")
  line' ← cookie_loop line cookies
  compute_message message line'

-- The lines behind the request line.
unfoldable pub add_headers :
    Text → (host : Text) → Option (List (Option Text)) → Option Text → Run Text
add_headers message host cookies jwt = do
  line ← put linelen (text "Host: " ++ host)
  message₁ ← compute_message message line
  message₂ ← add_authorization message₁ jwt
  message₃ ← add_cookies message₂ cookies
  compute_message message₃ []

unfoldable pub compute_get_request :
    (host url : Text) → Option Text → Option (List (Option Text)) → Option Text → Run Text
compute_get_request host url query_params cookies jwt = do
  line ← put linelen (elim query_params [
    | some query ↦ text "GET " ++ (url ++ (text "?" ++ (query ++ text " HTTP/1.1")))
    | none ↦ text "GET " ++ (url ++ text " HTTP/1.1")
  ])
  message ← compute_message [] line
  add_headers message host cookies jwt

unfoldable pub compute_delete_request :
    (host url : Text) → Option (List (Option Text)) → Option Text → Run Text
compute_delete_request host url cookies jwt = do
  line ← put linelen (text "DELETE " ++ (url ++ text " HTTP/1.1"))
  message ← compute_message [] line
  add_headers message host cookies jwt

-- `sprintf(body_data_buffer + strlen(body_data_buffer), "%s&", body_data[i])` for each field.
unfoldable pub body_loop : Text → List (Option Text) → Run Text
body_loop body [] = done body
body_loop body (field ∷ fields) = do
  f ← require null_pointer field
  body' ← put linelen (body ++ (f ++ text "&"))
  body_loop body' fields

-- The body: the last character of the joined fields is overwritten, and is in front of the array if
-- there is none.
unfoldable pub body_text : Option (List (Option Text)) → Run Text
body_text none = done []
body_text (some fields) = do
  body ← body_loop [] fields
  if length body == 0 then fault out_of_bounds else done (drop_last body)

unfoldable pub compute_post_request :
    (host url content_type : Text) (body_data cookies : Option (List (Option Text)))
    → Option Text
    → Run Text
compute_post_request host url content_type body_data cookies jwt = do
  line ← put linelen (text "POST " ++ (url ++ text " HTTP/1.1"))
  message ← compute_message [] line
  host_line ← put linelen (text "Host: " ++ host)
  message₁ ← compute_message message host_line
  message₂ ← add_authorization message₁ jwt
  type_line ← put linelen (text "Content-Type: " ++ content_type)
  message₃ ← compute_message message₂ type_line
  body ← body_text body_data
  length_line ← put linelen (text "Content-Length: " ++ decimal (length body))
  message₄ ← compute_message message₃ length_line
  message₅ ← add_cookies message₄ cookies
  message₆ ← compute_message message₅ []
  compute_message message₆ body
