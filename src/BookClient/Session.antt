-- ===== src/BookClient/Session.antt =====
-- PCom3/client.c: the commands of the client, each for the input that it reads and the response that
-- it receives, and the two extractions of PCom3/helpers.c. The JSON library is a parameter.
pub mod Cookie
pub mod Commands
pub mod Ids
pub mod Loop
use pcom_assignments.Prelude.{
  ℕ, ◌+◌, ◌-◌, ◌%◌, ◌^◌, List, [], ◌∷◌, ◌++◌, Bool, true, false, ◌||◌, Option, none, some, ◌==◌,
  ltb, if◌then◌else◌, length, take, drop,
}
use pcom_assignments.Prelude.Int.{ℤ, pos, ltb_ℤ}
use pcom_assignments.Prelude.Run.{Run, done, fault, null_pointer, uninitialised, ◌>>=◌, require}
use pcom_assignments.Prelude.Texts.{Text, text, eq_text, starts_with, strstr}
use pcom_assignments.BookClient.Stdio.{decimal_ℤ, drop_last, fgets, scan_int}
use pcom_assignments.BookClient.Requests.{
  linelen, put, compute_get_request, compute_post_request, compute_delete_request,
}

-- The library that reads and prints JSON; `none` is NULL. A value that is no object is like NULL
-- where an object is wanted.
pub record Json : Type 1 where
  pub Value : Type 0
  pub init_object : Value
  pub set_string : Value → (key value : Text) → Value
  pub set_number : Value → (key : Text) → ℤ → Value
  pub serialize_to_string_pretty : Option Value → Option Text
  pub parse_string : Text → Option Value
  pub has_value : Option Value → (key : Text) → Bool
  pub get_string : Option Value → (key : Text) → Option Text

abbrev pub register_path : Text
register_path = text "/api/v1/tema/auth/register"

abbrev pub login_path : Text
login_path = text "/api/v1/tema/auth/login"

abbrev pub access_path : Text
access_path = text "/api/v1/tema/library/access"

abbrev pub books_path : Text
books_path = text "/api/v1/tema/library/books"

abbrev pub logout_path : Text
logout_path = text "/api/v1/tema/auth/logout"

abbrev pub json_type : Text
json_type = text "application/json"

-- `cookies[0]` and `jwt`.
pub record Session : Type 0 where
  pub cookie : Option Text
  pub jwt : Option Text

-- The line buffer, unset before the first line, and the input to come.
pub record Console : Type 0 where
  pub line_buf : Option Text
  pub input : Text

-- What a command leaves: the request that it has sent, if any, and what it has printed.
pub record Turn : Type 0 where
  pub session : Session
  pub console : Console
  pub request : Option Text
  pub printed : Text
  pub running : Bool

-- The rest of the line is dropped; a byte 255 is taken for the end of the input.
unfoldable pub clear_stdin : Text → Text
clear_stdin [] = []
clear_stdin (c ∷ s) = if c == 10 || c == 255 then s else clear_stdin s

-- A line without its last character.
unfoldable pub read_line : Console → Run (Text × Console)
read_line con = do
  let (buf, rest) = fgets linelen con.line_buf con.input
  line ← require uninitialised buf
  done (drop_last line, record { line_buf = buf; input = rest })

-- A number that must be there, and the rest of its line dropped.
unfoldable pub read_id : Console → Run (ℤ × Console)
read_id con = do
  (id, rest) ← scan_int con.input
  n ← require uninitialised id
  done (n, record con { input = clear_stdin rest })

abbrev pub basic_extract_json_response : Text → Option Text
basic_extract_json_response str = strstr str (text "{\"")

abbrev pub basic_extract_json_array_response : Text → Option Text
basic_extract_json_array_response str = elim (strstr str (text "[{\"")) [
  | some array ↦ some array
  | none ↦ strstr str (text "[]")
]

-- `printf("[Server %.*s]", ...)`: a negative precision is taken as if it were not there.
abbrev pub status_text : (response line_end : Text) → Text
status_text response line_end =
    let status = drop 9 response in
    text "[Server "
    ++ ((if ltb (length status) (length line_end)
          then status
          else take (length status - length line_end) status)
        ++ text "]")

-- `snprintf` of `size` characters at most, its NUL character included, to an array of `linelen`.
abbrev pub snprintf : (size : ℕ) → Text → Run Text
snprintf size t = put linelen (take (size - 1) t)

-- The cookie behind a login, by what the two searches find in the response.
abbrev pub found_cookie : (old param cookie : Option Text) → Run (Option Text)
found_cookie old none cookie = done old
found_cookie old (some param) cookie = do
  path ← require null_pointer cookie
  new ← snprintf ((length param + 2 ^ 64 - 12 - length path + 1) % 2 ^ 64) (drop 12 param)
  done (some new)

unfoldable pub login_cookie : (old : Option Text) → (response : Text) → Run (Option Text)
login_cookie old response =
    found_cookie old (strstr response (text "Set-Cookie: connect.sid="))
      (strstr response (text "; Path"))

module _ (json : Json) where
  -- The JSON of a response in pretty format.
  unfoldable pub pretty : Text → Run Text
  pretty content = do
    s ← require null_pointer (json.serialize_to_string_pretty (json.parse_string content))
    done (text " Server says:\n" ++ (s ++ text "\n"))

  -- By what the two searches find.
  abbrev pub found_content : (array object : Option Text) → Run Text
  found_content (some array) object = pretty array
  found_content none (some object) = pretty object
  found_content none none = done (text "\n")

  unfoldable pub print_response : Text → Run Text
  print_response response =
      if starts_with (text "HTTP/1.1") response
      then (do
        line_end ← require null_pointer (strstr response (13 ∷ 10 ∷ []))
        content ←
            found_content (basic_extract_json_array_response response)
              (basic_extract_json_response response)
        done (status_text response line_end ++ content))
      else done (text "[Bad Response]\n")

  -- The token behind an access, by the JSON that is found in the response.
  abbrev pub found_token : (old content : Option Text) → Run (Option Text)
  found_token old none = done old
  found_token old (some content) =
      let token = json.parse_string content in
      if json.has_value token (text "token")
      then (do
        value ← require null_pointer (json.get_string token (text "token"))
        done (some value))
      else done old

  unfoldable pub access_token : (old : Option Text) → (response : Text) → Run (Option Text)
  access_token old response = found_token old (basic_extract_json_response response)

  abbrev pub credentials : (username password : Text) → Json.Value json
  credentials username password =
      json.set_string (json.set_string json.init_object (text "username") username)
        (text "password") password
