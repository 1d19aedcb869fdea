-- ===== src/BookClient/Session/Loop/Visits.antt =====
-- PCom3/client.c: a whole run of the client, from the login over the access to the list of books.
use pcom_assignments.Prelude.{
  ℕ, suc, ◌+◌, ◌^◌, ◌<◌, ◌≡◌, refl, ◌∙◌, arith, List, [], ◌∷◌, ◌++◌, true, false, false, none, some,
  length,
}
use pcom_assignments.Prelude.Run.{done}
use pcom_assignments.Prelude.Texts.{Text, text, strstr}
use pcom_assignments.BookClient.Requests.{buflen, linelen}
use pcom_assignments.BookClient.Requests.Fits.{unlines, request_lines, get_line, AreShort}
use pcom_assignments.BookClient.Requests.Post.{post_lines}
use pcom_assignments.BookClient.Session.{
  Json, Session, Console, Turn, login_path, access_path, json_type, print_response, credentials,
  basic_extract_json_response,
}
use pcom_assignments.BookClient.Session.Cookie.{IsLine, read_line-append}
use pcom_assignments.BookClient.Session.Commands.{
  on_login, on_enter_library, silent, run_command, round,
}
use pcom_assignments.BookClient.Session.Commands.Exchange.{
  on_login-cookie, on_enter_library-token, on_get_books-request,
}
use pcom_assignments.BookClient.Session.Commands.Logout.{books_lines, get_books_lem}
use pcom_assignments.BookClient.Session.Loop.{Visit, behind, last, next_number, main_loop, main}

-- The input of the visit, behind its login.
abbrev pub behind_login : Text → Text
behind_login rest =
    text "enter_library" ++ 10 ∷ (text "get_books" ++ 10 ∷ (text "exit" ++ 10 ∷ rest))

abbrev pub visit_input : (username password rest : Text) → Text
visit_input username password rest =
    text "login" ++ 10 ∷ (username ++ 10 ∷ (password ++ 10 ∷ behind_login rest))

-- The lines of the three requests.
module _ (host : Text) where
  abbrev pub login_request : (body : Text) → Text
  login_request body = unlines (post_lines host login_path json_type body none none)

  abbrev pub access_lines : (cookie : Text) → List Text
  access_lines cookie = request_lines (get_line access_path none) host (some (cookie ∷ [])) none

module _ (json : Json) (host : Text) where
  round_lem :
      (s : Session) (con : Console) (response cmd rest : Text)
      → IsLine cmd
      → length cmd < 999
      → con.input ≡ cmd ++ 10 ∷ rest
      → round json host s con response
        ≡ run_command json host cmd s
            (record { line_buf = some (cmd ++ 10 ∷ []); input = rest })
            response
  unfolding round
  round_lem s con response cmd rest is short at =
      rw (read_line-append con cmd rest is short at) refl

  -- The commands by their names.
  login_lem :
      (s : Session) (con : Console) (response : Text)
      → run_command json host (text "login") s con response ≡ on_login json host s con response
  unfolding run_command
  login_lem s con response = refl

  enter_library_lem :
      (s : Session) (con : Console) (response : Text)
      → run_command json host (text "enter_library") s con response
        ≡ on_enter_library json host s con response
  unfolding run_command
  enter_library_lem s con response = refl

  exit_lem :
      (s : Session) (con : Console) (response : Text)
      → run_command json host (text "exit") s con response ≡ done (silent json host s con [] false)
  unfolding run_command
  exit_lem s con response = refl

  module _ (responses : ℕ → Text) where
    main_loop_turn :
        (fuel sent : ℕ) (s : Session) (con : Console) {t : Turn} {v : Visit}
        → round json host s con (responses sent) ≡ done t
        → t.running ≡ true
        → main_loop json host responses fuel (next_number t.request sent) t.session t.console
          ≡ done v
        → main_loop json host responses (suc fuel) sent s con ≡ done (behind t v)
    unfolding main_loop
    main_loop_turn fuel sent s con at on rest = rw (at, on, rest) refl

    main_loop_ends :
        (fuel sent : ℕ) (s : Session) (con : Console) {t : Turn}
        → round json host s con (responses sent) ≡ done t
        → t.running ≡ false
        → main_loop json host responses (suc fuel) sent s con ≡ done (last t)
    unfolding main_loop
    main_loop_ends fuel sent s con at off = rw (at, off) refl

  -- For an input of a login, `enter_library`, `get_books` and `exit`, with two lines of at most
  -- 998 characters for username and password, a body that the JSON library prints, requests whose
  -- lines fit their arrays, and responses that are printed, of which the first has a cookie of
  -- less than 1000 characters that the first "; Path" ends and the second JSON with a token:
  -- `main` returns in four rounds or more. It has sent three requests, the first with the body,
  -- the second with the cookie of the first response, the third with this cookie and the token of
  -- the second response; the input behind `exit` is not read.
  pub main_visit :
      (responses : ℕ → Text) (username password body cookie token rest : Text)
      → IsLine username
      → length username < 999
      → IsLine password
      → length password < 999
      → Json.serialize_to_string_pretty json (some (credentials json username password)) ≡ some body
      → AreShort (post_lines host login_path json_type body none none)
      → length body + 1 < linelen
      → length (login_request host body) < buflen
      → AreShort (access_lines host cookie)
      → length (unlines (access_lines host cookie)) < buflen
      → AreShort (books_lines host cookie token)
      → length (unlines (books_lines host cookie token)) < buflen
      → (end content shown₁ shown₂ shown₃ : Text) → print_response json (responses 0) ≡ done shown₁
      → strstr (responses 0) (text "Set-Cookie: connect.sid=")
        ≡ some (text "Set-Cookie: " ++ (cookie ++ end))
      → strstr (responses 0) (text "; Path") ≡ some end
      → length cookie < linelen
      → length end < 2 ^ 63
      → print_response json (responses 1) ≡ done shown₂
      → basic_extract_json_response (responses 1) ≡ some content
      → Json.has_value json (Json.parse_string json content) (text "token") ≡ true
      → Json.get_string json (Json.parse_string json content) (text "token") ≡ some token
      → print_response json (responses 2) ≡ done shown₃
      → (fuel : ℕ)
      → main json host responses (suc (suc (suc (suc fuel)))) (visit_input username password rest)
        ≡ done (record {
          session = record { cookie = some cookie; jwt = some token };
          console = record { line_buf = some (text "exit\n"); input = rest };
          requests =
              login_request host body
              ∷ unlines (access_lines host cookie)
              ∷ unlines (books_lines host cookie token)
              ∷ [];
          printed = (text "username=password=" ++ shown₁) ++ (shown₂ ++ (shown₃ ++ []));
        })
  unfolding main
  main_visit responses username password body cookie token rest uline ushort pline pshort serialized
        short body_short fits access_short access_fits books_short books_fits end content shown₁
        shown₂ shown₃ prints param path cookie_short bound prints₂ found has_token is_token prints₃
        fuel =
      let s₀ : Session = record { cookie = none; jwt = none } in
      let s₁ : Session = record { cookie = some cookie; jwt = none } in
      let s₂ : Session = record { cookie = some cookie; jwt = some token } in
      let con₀ : Console = record { line_buf = none; input = visit_input username password rest } in
      let con₁ : Console = record {
        line_buf = some (password ++ 10 ∷ []);
        input = behind_login rest;
      } in
      let in₀ : Console = record {
        line_buf = some (text "login\n");
        input = username ++ 10 ∷ (password ++ 10 ∷ behind_login rest);
      } in
      let in₁ : Console = record {
        line_buf = some (text "enter_library\n");
        input = text "get_books" ++ 10 ∷ (text "exit" ++ 10 ∷ rest);
      } in
      let in₂ : Console = record {
        line_buf = some (text "get_books\n");
        input = text "exit" ++ 10 ∷ rest;
      } in
      let in₃ : Console = record { line_buf = some (text "exit\n"); input = rest } in
      let login =
        round_lem s₀ con₀ (responses 0) (text "login") in₀.input (ground arith) (omega arith) refl
        ∙ login_lem s₀ in₀ (responses 0)
        ∙ on_login-cookie json host s₀ in₀ username password (behind_login rest) body uline ushort
            pline pshort refl serialized short body_short fits (responses 0) shown₁ cookie end
            prints param path cookie_short bound in
      let enter =
        round_lem s₁ con₁ (responses 1) (text "enter_library") in₁.input (ground arith)
          (omega arith) refl
        ∙ enter_library_lem s₁ in₁ (responses 1)
        ∙ on_enter_library-token json host s₁ in₁ cookie token refl access_short access_fits
            (responses 1) shown₂ content prints₂ found has_token is_token in
      let get =
        round_lem s₂ in₁ (responses 2) (text "get_books") in₂.input (ground arith) (omega arith)
          refl
        ∙ get_books_lem json host s₂ in₂ (responses 2)
        ∙ on_get_books-request json host in₂ cookie token books_short books_fits (responses 2)
            shown₃ prints₃ in
      let exit =
        round_lem s₂ in₂ (responses 3) (text "exit") rest (ground arith) (omega arith) refl
        ∙ exit_lem s₂ in₃ (responses 3) in
      main_loop_turn responses (suc (suc (suc fuel))) 0 s₀ con₀ login refl (
        main_loop_turn responses (suc (suc fuel)) 1 s₁ con₁ enter refl (
          main_loop_turn responses (suc fuel) 2 s₂ in₁ get refl
            (main_loop_ends responses fuel 3 s₂ in₂ exit refl)))
