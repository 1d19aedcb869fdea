-- ===== src/BookClient/Examples/Session.antt =====
-- PCom3/client.c: the theorems on the client's commands at concrete inputs.
use pcom_assignments.Prelude.{ℕ, ◌+◌, ◌*◌, ◌≡◌, refl, arith, [], ◌∷◌, ◌++◌, true, none, some}
use pcom_assignments.Prelude.Run.{done}
use pcom_assignments.Prelude.Texts.{Text, text}
use pcom_assignments.BookClient.Requests.{compute_post_request}
use pcom_assignments.BookClient.Requests.Fits.{unlines}
use pcom_assignments.BookClient.Requests.Post.{post_lines, compute_post_request-unlines}
use pcom_assignments.BookClient.Transport.Sending.{
  Write, accepts, Accepts, send_to_server, send_to_server_all,
}
use pcom_assignments.BookClient.Stdio.{decimal}
use pcom_assignments.BookClient.Session.{
  Json, Session, Console, login_path, json_type, print_response,
}
use pcom_assignments.BookClient.Session.Commands.{on_login}
use pcom_assignments.BookClient.Session.Commands.Exchange.{on_login-cookie}

abbrev pub host : Text
host = text "h"

compute_post_request-unlines_example :
    compute_post_request host
      (text "/b")
      json_type
      (some (some (text "{}") ∷ []))
      (some (some (text "c=1") ∷ []))
      none
    ≡ done (
        unlines (
          text "POST /b HTTP/1.1"
          ∷ text "Host: h"
          ∷ text "Content-Type: application/json"
          ∷ text "Content-Length: 2"
          ∷ text "Cookie: c=1; "
          ∷ []
          ∷ text "{}"
          ∷ []))
unfolding decimal
compute_post_request-unlines_example =
    compute_post_request-unlines host (text "/b") json_type (text "{}") (some (text "c=1" ∷ []))
      none (omega arith) (omega arith) (omega arith)

-- A JSON library whose values are texts that are printed as they are.
abbrev pub json : Json
json = record {
  Value = Text;
  init_object = [];
  set_string = λ v key value. v ++ (key ++ value);
  set_number = λ v key n. v ++ key;
  serialize_to_string_pretty = λ v. v;
  parse_string = λ t. some t;
  has_value = λ v key. true;
  get_string = λ v key. some (text "T");
}

abbrev pub session : Session
session = record { cookie = none; jwt = none }

abbrev console : Console
console = record { line_buf = none; input = text "me\npw\nexit\n" }

abbrev pub login_response : Text
login_response =
    text "HTTP/1.1 200 OK" ++ (13 ∷ 10 ∷ (text "Set-Cookie: connect.sid=x; Path=/" ++ 13 ∷ 10 ∷ []))

on_login-cookie_example :
    on_login json host session console login_response
    ≡ done (record {
      session = record { cookie = some (text "connect.sid=x"); jwt = none };
      console = record { line_buf = some (text "pw\n"); input = text "exit\n" };
      request =
          some (
            unlines (post_lines host login_path json_type (text "usernamemepasswordpw") none none));
      printed = text "username=password=[Server 200 OK]\n";
      running = true;
    })
unfolding decimal print_response
on_login-cookie_example =
    on_login-cookie json host session console (text "me") (text "pw") (text "exit\n")
      (text "usernamemepasswordpw") (omega arith, refl, (omega arith, refl, tt)) (omega arith)
      (omega arith, refl, (omega arith, refl, tt)) (omega arith) refl refl (omega arith)
      (omega arith) (omega arith) login_response (text "[Server 200 OK]\n") (text "connect.sid=x")
      (text "; Path=/" ++ 13 ∷ 10 ∷ []) refl refl refl (omega arith) (omega arith)

abbrev pub access_response : Text
access_response = text "HTTP/1.1 200 OK" ++ (13 ∷ 10 ∷ text "{\"token\"}")

-- One byte, and then as many as there are.
abbrev some_bytes : ℕ → Write
some_bytes n = accepts (4 * n + 1)

some_bytes-Accepts : Accepts some_bytes
some_bytes-Accepts n = (4 * n + 1, omega arith, refl)

send_to_server_all_example : send_to_server 3 (text "GET") some_bytes ≡ done (some (text "GET"))
send_to_server_all_example =
    send_to_server_all some_bytes some_bytes-Accepts (text "GET") 3 (omega arith) (omega arith)
      (omega arith)
