-- ===== src/BookClient/Session/Commands.antt =====
-- PCom3/client.c: the body of the loop of `main`, a function for each command.
pub mod Laws
pub mod Exchange
pub mod Logout
pub mod Ends
use pcom_assignments.Prelude.{
  ℕ, List, [], ◌∷◌, ◌++◌, Bool, true, false, Option, none, some, if◌then◌else◌,
}
use pcom_assignments.Prelude.Int.{ℤ, pos, ltb_ℤ}
use pcom_assignments.Prelude.Run.{Run, done, fault, ◌>>=◌}
use pcom_assignments.Prelude.Texts.{Text, text, eq_text}
use pcom_assignments.BookClient.Stdio.{decimal_ℤ, scan_int}
use pcom_assignments.BookClient.Requests.{
  linelen, put, compute_get_request, compute_post_request, compute_delete_request,
}
use pcom_assignments.BookClient.Session.{
  Json, Session, Console, Turn, register_path, login_path, access_path, books_path, logout_path,
  json_type, clear_stdin, read_line, read_id, login_cookie, print_response, access_token,
  credentials,
}

-- `cookies` with a count of 1.
abbrev pub cookies : Session → Option (List (Option Text))
cookies s = some (s.cookie ∷ [])

-- `sprintf(book_path, "%s/%d", BOOKS, id)`
unfoldable pub book_path : ℤ → Run Text
book_path id = put linelen (books_path ++ (text "/" ++ decimal_ℤ id))

module _ (json : Json) (host : Text) where
  -- The request of a registration or a login, with a body and neither cookies nor token.
  unfoldable pub credentials_request : (path username password : Text) → Run Text
  credentials_request path username password =
      compute_post_request host path json_type
        (some (json.serialize_to_string_pretty (some (credentials json username password)) ∷ []))
        none none

  unfoldable pub on_register : Session → Console → (response : Text) → Run Turn
  on_register s con response = do
    (username, con₁) ← read_line con
    (password, con₂) ← read_line con₁
    message ← credentials_request register_path username password
    shown ← print_response json response
    done (record {
      session = s;
      console = con₂;
      request = some message;
      printed = text "username=password=" ++ shown;
      running = true;
    })

  unfoldable pub on_login : Session → Console → (response : Text) → Run Turn
  on_login s con response = do
    (username, con₁) ← read_line con
    (password, con₂) ← read_line con₁
    message ← credentials_request login_path username password
    shown ← print_response json response
    cookie ← login_cookie s.cookie response
    done (record {
      session = record s { cookie = cookie };
      console = con₂;
      request = some message;
      printed = text "username=password=" ++ shown;
      running = true;
    })

  unfoldable pub on_enter_library : Session → Console → (response : Text) → Run Turn
  on_enter_library s con response = do
    message ← compute_get_request host access_path none (cookies s) none
    shown ← print_response json response
    jwt ← access_token json s.jwt response
    done (record {
      session = record s { jwt = jwt };
      console = con;
      request = some message;
      printed = shown;
      running = true;
    })

  unfoldable pub on_get_books : Session → Console → (response : Text) → Run Turn
  on_get_books s con response = do
    message ← compute_get_request host books_path none (cookies s) s.jwt
    shown ← print_response json response
    done (record {
      session = s;
      console = con;
      request = some message;
      printed = shown;
      running = true;
    })

  unfoldable pub on_get_book : Session → Console → (response : Text) → Run Turn
  on_get_book s con response = do
    (id, con') ← read_id con
    path ← book_path id
    message ← compute_get_request host path none (cookies s) s.jwt
    shown ← print_response json response
    done (record {
      session = s;
      console = con';
      request = some message;
      printed = text "id=" ++ shown;
      running = true;
    })

  unfoldable pub on_delete_book : Session → Console → (response : Text) → Run Turn
  on_delete_book s con response = do
    (id, con') ← read_id con
    path ← book_path id
    message ← compute_delete_request host path (cookies s) s.jwt
    shown ← print_response json response
    done (record {
      session = s;
      console = con';
      request = some message;
      printed = text "id=" ++ shown;
      running = true;
    })

  unfoldable pub on_logout : Session → Console → (response : Text) → Run Turn
  on_logout s con response = do
    message ← compute_get_request host logout_path none (cookies s) none
    shown ← print_response json response
    done (record {
      session = s;
      console = con;
      request = some message;
      printed = shown;
      running = true;
    })

  abbrev pub book_prompts : Text
  book_prompts = text "title=author=genre=publisher=page_count="

  abbrev pub book : (title author genre publisher : Text) → (page_count : ℤ) → Json.Value json
  book title author genre publisher page_count =
      json.set_string
        (json.set_number
          (json.set_string
            (json.set_string (json.set_string json.init_object (text "title") title) (text "author")
              author)
            (text "genre") genre)
          (text "page_count") page_count)
        (text "publisher") publisher

  abbrev pub invalid_page_count : Session → Console → Turn
  invalid_page_count s con = record {
    session = s;
    console = record con { input = clear_stdin con.input };
    request = none;
    printed = book_prompts ++ text "Invalid format for page_count!\n";
    running = true;
  }

  -- The rest of `add_book` behind the page count.
  unfoldable pub send_book : Session → Console → Json.Value json → (response : Text) → Run Turn
  send_book s con payload response = do
    message ←
        compute_post_request host books_path json_type
          (some (json.serialize_to_string_pretty (some payload) ∷ [])) (cookies s) s.jwt
    shown ← print_response json response
    done (record {
      session = s;
      console = con;
      request = some message;
      printed = book_prompts ++ shown;
      running = true;
    })

  unfoldable pub on_add_book : Session → Console → (response : Text) → Run Turn
  on_add_book s con response = do
    (title, con₁) ← read_line con
    (author, con₂) ← read_line con₁
    (genre, con₃) ← read_line con₂
    (publisher, con₄) ← read_line con₃
    (page_count, rest) ← scan_int con₄.input
    elim page_count [
      | none ↦ done (invalid_page_count s (record con₄ { input = rest }))
      | some n ↦
          if ltb_ℤ n (pos 0)
          then done (invalid_page_count s (record con₄ { input = rest }))
          else send_book s (record con₄ { input = clear_stdin rest })
              (book title author genre publisher n) response
    ]

  abbrev pub silent : Session → Console → (printed : Text) → (running : Bool) → Turn
  silent s con printed running = record {
    session = s;
    console = con;
    request = none;
    printed = printed;
    running = running;
  }

  unfoldable pub run_command : (cmd : Text) → Session → Console → (response : Text) → Run Turn
  run_command cmd s con response =
      if eq_text cmd (text "register")
      then on_register s con response
      else if eq_text cmd (text "login")
      then on_login s con response
      else if eq_text cmd (text "enter_library")
      then on_enter_library s con response
      else if eq_text cmd (text "get_books")
      then on_get_books s con response
      else if eq_text cmd (text "get_book")
      then on_get_book s con response
      else if eq_text cmd (text "add_book")
      then on_add_book s con response
      else if eq_text cmd (text "delete_book")
      then on_delete_book s con response
      else if eq_text cmd (text "logout")
      then on_logout s con response
      else if eq_text cmd (text "exit")
      then done (silent s con [] false)
      else done (silent s con (text "Command unrecognized\n") true)

  -- A round of the loop.
  unfoldable pub round : Session → Console → (response : Text) → Run Turn
  round s con response = do (cmd, con') ← read_line con; run_command cmd s con' response
