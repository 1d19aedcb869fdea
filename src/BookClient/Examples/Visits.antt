-- ===== src/BookClient/Examples/Visits.antt =====
-- PCom3/client.c: the theorems on the loop of `main` at concrete inputs.
use pcom_assignments.Prelude.{ℕ, zero, suc, ◌≡◌, refl, arith, [], ◌∷◌, ◌++◌, true, none, some}
use pcom_assignments.Prelude.Run.{done}
use pcom_assignments.Prelude.Texts.{Text, text}
use pcom_assignments.BookClient.Stdio.{digits, decimal}
use pcom_assignments.BookClient.Session.Commands.{on_get_book}
use pcom_assignments.BookClient.Session.Ids.{on_get_book-decimal}
use pcom_assignments.BookClient.Session.{print_response, pretty}
use pcom_assignments.BookClient.Session.Loop.{main_loop, main}
use pcom_assignments.BookClient.Session.{Session, Console}
use pcom_assignments.BookClient.Session.Loop.Ends.{main_loop_repeats}
use pcom_assignments.BookClient.Session.Commands.{round, run_command}
use pcom_assignments.BookClient.Session.Commands.Logout.{
  kept, logout_lines, books_lines, run_command-run_command,
}
use pcom_assignments.Prelude.Run.{fault, out_of_fuel, ◌>>=◌}
use pcom_assignments.BookClient.Session.Loop.Visits.{
  visit_input, login_request, access_lines, main_visit,
}
use pcom_assignments.BookClient.Requests.Fits.{unlines}
use pcom_assignments.BookClient.Examples.Session.{host, json, login_response, access_response}

abbrev responses : ℕ → Text
responses zero = login_response
responses (suc n) = access_response

main_visit_example :
    main json host responses 4 (visit_input (text "me") (text "pw") (text "ls"))
    ≡ done (record {
      session = record { cookie = some (text "connect.sid=x"); jwt = some (text "T") };
      console = record { line_buf = some (text "exit\n"); input = text "ls" };
      requests =
          login_request host (text "usernamemepasswordpw")
          ∷ unlines (access_lines host (text "connect.sid=x"))
          ∷ unlines (books_lines host (text "connect.sid=x") (text "T"))
          ∷ [];
      printed =
          text "username=password=[Server 200 OK]\n"
          ++ (text "[Server 200 OK] Server says:\n{\"token\"}\n"
              ++ (text "[Server 200 OK] Server says:\n{\"token\"}\n" ++ []));
    })
unfolding decimal print_response pretty
main_visit_example =
    main_visit json host responses (text "me") (text "pw") (text "usernamemepasswordpw")
      (text "connect.sid=x") (text "T") (text "ls") (omega arith, refl, (omega arith, refl, tt))
      (omega arith) (omega arith, refl, (omega arith, refl, tt)) (omega arith) refl (omega arith)
      (omega arith) (omega arith) (omega arith) (omega arith) (omega arith) (omega arith)
      (text "; Path=/" ++ 13 ∷ 10 ∷ []) (text "{\"token\"}") (text "[Server 200 OK]\n")
      (text "[Server 200 OK] Server says:\n{\"token\"}\n")
      (text "[Server 200 OK] Server says:\n{\"token\"}\n") refl refl refl (omega arith)
      (omega arith) refl refl refl refl refl 0

on_get_book-decimal_example :
    on_get_book json host
      (record { cookie = some (text "c"); jwt = some (text "T") })
      (record { line_buf = none; input = text "12\nexit\n" })
      access_response
    ≡ done (record {
      session = record { cookie = some (text "c"); jwt = some (text "T") };
      console = record { line_buf = none; input = text "exit\n" };
      request = some (
          unlines (
            text "GET /api/v1/tema/library/books/12 HTTP/1.1"
            ∷ text "Host: h"
            ∷ text "Authorization: Bearer T"
            ∷ text "Cookie: c; "
            ∷ []
            ∷ []));
      printed = text "id=[Server 200 OK] Server says:\n{\"token\"}\n";
      running = true;
    })
unfolding decimal digits print_response pretty
on_get_book-decimal_example =
    on_get_book-decimal json host (record { line_buf = none; input = text "12\nexit\n" }) (text "c")
      (text "T") 12 (text "exit\n") (omega arith) refl (omega arith) (omega arith) (omega arith)
      access_response (text "[Server 200 OK] Server says:\n{\"token\"}\n") refl

abbrev all_books : ℕ → Text
all_books k = access_response

abbrev all_shown : ℕ → Text
all_shown k = text "[Server 200 OK] Server says:\n{\"token\"}\n"

all_printed : (k : ℕ) → print_response json (all_books k) ≡ done (all_shown k)
unfolding print_response pretty
all_printed k = refl

main_loop_repeats_example :
    let s : Session = record { cookie = some (text "c"); jwt = some (text "T") } in
    let con : Console = record { line_buf = some (text "get_books\n"); input = [] } in
    ((k : ℕ)
      → round json host s con (all_books k)
        ≡ done (
            kept s con
              (books_lines host (text "c") (text "T"))
              (text "[Server 200 OK] Server says:\n{\"token\"}\n")))
    × ((fuel sent : ℕ) → main_loop json host all_books fuel sent s con ≡ fault out_of_fuel)
unfolding print_response pretty
main_loop_repeats_example =
    main_loop_repeats json host all_books (text "c") (text "T") (omega arith) (omega arith)
      all_shown all_printed

run_command-run_command_example :
    let s : Session = record { cookie = some (text "c"); jwt = some (text "T") } in
    let con : Console = record { line_buf = none; input = [] } in
    (run_command json host (text "logout") s con login_response
      ≡ done (kept s con (logout_lines host (text "c")) (text "[Server 200 OK]\n")))
    × ((run_command json host (text "logout") s con login_response >>= λ t.
          run_command json host (text "get_books") t.session t.console access_response)
        ≡ done (
            kept s con
              (books_lines host (text "c") (text "T"))
              (text "[Server 200 OK] Server says:\n{\"token\"}\n")))
unfolding print_response pretty
run_command-run_command_example =
    run_command-run_command json host (record { line_buf = none; input = [] }) (text "c") (text "T")
      (omega arith) (omega arith) (omega arith) (omega arith) login_response
      (text "[Server 200 OK]\n") access_response
      (text "[Server 200 OK] Server says:\n{\"token\"}\n") refl refl
