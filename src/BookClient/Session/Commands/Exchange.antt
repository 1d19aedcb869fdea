-- ===== src/BookClient/Session/Commands/Exchange.antt =====
-- PCom3/client.c: the requests of a session, from the login to the list of books.
use pcom_assignments.Prelude.{◌+◌, ◌^◌, ◌<◌, ◌≡◌, refl, [], ◌∷◌, ◌++◌, true, none, some, length}
use pcom_assignments.Prelude.Run.{done}
use pcom_assignments.Prelude.Texts.{Text, text, strstr}
use pcom_assignments.BookClient.Requests.{buflen, linelen}
use pcom_assignments.BookClient.Requests.Fits.{
  unlines, request_lines, get_line, AreShort, compute_get_request-unlines,
}
use pcom_assignments.BookClient.Requests.Post.{post_lines, compute_post_request-unlines}
use pcom_assignments.BookClient.Session.{
  Json, Session, Console, login_path, access_path, books_path, json_type, print_response,
  access_token, credentials, basic_extract_json_response,
}
use pcom_assignments.BookClient.Session.Cookie.{IsLine, read_line-append, login_cookie-value}
use pcom_assignments.BookClient.Session.Commands.{
  credentials_request, on_login, on_enter_library, on_get_books,
}

module _ (json : Json) (host : Text) where
  -- Two lines of input, a body that the JSON library prints, lines of the request that fit, and a
  -- response that is printed and has a cookie: `on_login` returns, sends the request with the body
  -- and with neither cookie nor token, and leaves the cookie in the session.
  pub on_login-cookie :
      (s : Session) (con : Console) (username password rest body : Text)
      → IsLine username
      → length username < 999
      → IsLine password
      → length password < 999
      → con.input ≡ username ++ 10 ∷ (password ++ 10 ∷ rest)
      → Json.serialize_to_string_pretty json (some (credentials json username password)) ≡ some body
      → AreShort (post_lines host login_path json_type body none none)
      → length body + 1 < linelen
      → length (unlines (post_lines host login_path json_type body none none)) < buflen
      → (response shown cookie end : Text) → print_response json response ≡ done shown
      → strstr response (text "Set-Cookie: connect.sid=")
        ≡ some (text "Set-Cookie: " ++ (cookie ++ end))
      → strstr response (text "; Path") ≡ some end
      → length cookie < linelen
      → length end < 2 ^ 63
      → on_login json host s con response
        ≡ done (record {
          session = record s { cookie = some cookie };
          console = record { line_buf = some (password ++ 10 ∷ []); input = rest };
          request = some (unlines (post_lines host login_path json_type body none none));
          printed = text "username=password=" ++ shown;
          running = true;
        })
  unfolding on_login credentials_request
  on_login-cookie s con username password rest body uline ushort pline pshort at serialized short
        body_short fits response shown cookie end prints param path cookie_short bound =
      rw
        (
          read_line-append con username (password ++ 10 ∷ rest) uline ushort at,
          read_line-append
              (record { line_buf = some (username ++ 10 ∷ []); input = password ++ 10 ∷ rest })
              password rest pline pshort refl,
          serialized,
          compute_post_request-unlines host login_path json_type body none none short body_short
              fits,
          prints,
          login_cookie-value s.cookie response cookie end param path cookie_short bound,
        )
        refl

  -- A session with a cookie, and a response whose JSON has a token: `on_enter_library` returns, sends
  -- the request with the cookie, and leaves the token in the session.
  pub on_enter_library-token :
      (s : Session) (con : Console) (cookie token : Text)
      → s.cookie ≡ some cookie
      → AreShort (request_lines (get_line access_path none) host (some (cookie ∷ [])) none)
      → length (unlines (request_lines (get_line access_path none) host (some (cookie ∷ [])) none))
        < buflen
      → (response shown content : Text) → print_response json response ≡ done shown
      → basic_extract_json_response response ≡ some content
      → Json.has_value json (Json.parse_string json content) (text "token") ≡ true
      → Json.get_string json (Json.parse_string json content) (text "token") ≡ some token
      → on_enter_library json host s con response
        ≡ done (record {
          session = record { cookie = some cookie; jwt = some token };
          console = con;
          request =
              some (
                unlines (request_lines (get_line access_path none) host (some (cookie ∷ [])) none));
          printed = shown;
          running = true;
        })
  unfolding on_enter_library access_token
  on_enter_library-token s con cookie token has short fits response shown content prints found
        has_token is_token =
      simp has (
        rw
          (
            compute_get_request-unlines host access_path none (some (cookie ∷ [])) none short fits,
            prints,
            found,
            has_token,
            is_token,
          )
          refl)

  -- With a cookie and a token, `on_get_books` asks for the books with both.
  pub on_get_books-request :
      (con : Console) (cookie token : Text)
      → AreShort (request_lines (get_line books_path none) host (some (cookie ∷ [])) (some token))
      → length (
          unlines (request_lines (get_line books_path none) host (some (cookie ∷ [])) (some token)))
        < buflen
      → (response shown : Text) → print_response json response ≡ done shown
      → on_get_books json host (record { cookie = some cookie; jwt = some token }) con response
        ≡ done (record {
          session = record { cookie = some cookie; jwt = some token };
          console = con;
          request = some (
              unlines
                (request_lines (get_line books_path none) host (some (cookie ∷ [])) (some token)));
          printed = shown;
          running = true;
        })
  unfolding on_get_books
  on_get_books-request con cookie token short fits response shown prints =
      rw
        (
          compute_get_request-unlines host books_path none (some (cookie ∷ [])) (some token) short
              fits,
          prints,
        )
        refl
