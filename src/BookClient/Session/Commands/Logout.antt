-- ===== src/BookClient/Session/Commands/Logout.antt =====
-- PCom3/client.c: what a logout leaves of the session.
use pcom_assignments.Prelude.{◌<◌, ◌≡◌, ◌∙◌, refl, List, [], ◌∷◌, true, none, some, length}
use pcom_assignments.Prelude.Run.{done, ◌>>=◌}
use pcom_assignments.Prelude.Texts.{Text, text}
use pcom_assignments.BookClient.Requests.{buflen}
use pcom_assignments.BookClient.Requests.Fits.{
  unlines, request_lines, get_line, AreShort, compute_get_request-unlines,
}
use pcom_assignments.BookClient.Session.{
  Json, Session, Console, Turn, books_path, logout_path, print_response,
}
use pcom_assignments.BookClient.Session.Commands.{on_get_books, on_logout, run_command}
use pcom_assignments.BookClient.Session.Commands.Exchange.{on_get_books-request}

-- The turn of a command that sends a request with the given lines and keeps the session.
abbrev pub kept : Session → Console → List Text → (shown : Text) → Turn
kept s con lines shown = record {
  session = s;
  console = con;
  request = some (unlines lines);
  printed = shown;
  running = true;
}

module _ (host : Text) where
  abbrev pub logout_lines : (cookie : Text) → List Text
  logout_lines cookie = request_lines (get_line logout_path none) host (some (cookie ∷ [])) none

  abbrev pub books_lines : (cookie token : Text) → List Text
  books_lines cookie token =
      request_lines (get_line books_path none) host (some (cookie ∷ [])) (some token)

module _ (json : Json) (host : Text) where
  logout_lem :
      (s : Session) (con : Console) (response : Text)
      → run_command json host (text "logout") s con response ≡ on_logout json host s con response
  unfolding run_command
  logout_lem s con response = refl

  pub get_books_lem :
      (s : Session) (con : Console) (response : Text)
      → run_command json host (text "get_books") s con response
        ≡ on_get_books json host s con response
  unfolding run_command
  get_books_lem s con response = refl

  on_logout-request :
      (con : Console) (cookie token : Text)
      → AreShort (logout_lines host cookie)
      → length (unlines (logout_lines host cookie)) < buflen
      → (response shown : Text) → print_response json response ≡ done shown
      → on_logout json host (record { cookie = some cookie; jwt = some token }) con response
        ≡ done (
            kept
              (record { cookie = some cookie; jwt = some token })
              con
              (logout_lines host cookie)
              shown)
  unfolding on_logout
  on_logout-request con cookie token short fits response shown prints =
      rw
        (
          compute_get_request-unlines host logout_path none (some (cookie ∷ [])) none short fits,
          prints,
        )
        refl

  -- A session with a cookie and a token, requests whose lines fit and responses that are printed, that
  -- of the logout whatever it says: `logout` returns, has sent the cookie and no token, and keeps both
  -- in the session, and `get_books` behind it returns and still sends the cookie and the token.
  pub run_command-run_command :
      (con : Console) (cookie token : Text)
      → AreShort (logout_lines host cookie)
      → length (unlines (logout_lines host cookie)) < buflen
      → AreShort (books_lines host cookie token)
      → length (unlines (books_lines host cookie token)) < buflen
      → (response shown books_response books_shown : Text)
      → print_response json response ≡ done shown
      → print_response json books_response ≡ done books_shown
      → let s : Session = record { cookie = some cookie; jwt = some token } in
        (run_command json host (text "logout") s con response
          ≡ done (kept s con (logout_lines host cookie) shown))
        × ((run_command json host (text "logout") s con response >>= λ t.
              run_command json host (text "get_books") t.session t.console books_response)
            ≡ done (kept s con (books_lines host cookie token) books_shown))
  run_command-run_command con cookie token short fits books_short books_fits response shown
        books_response books_shown prints books_prints =
      let s : Session = record { cookie = some cookie; jwt = some token } in
      let out =
        logout_lem s con response
        ∙ on_logout-request con cookie token short fits response shown prints in
      (
        out,
        rw out (
            get_books_lem s con books_response
            ∙ on_get_books-request json host con cookie token books_short books_fits books_response
                books_shown books_prints),
      )
