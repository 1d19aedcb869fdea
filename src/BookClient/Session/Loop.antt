-- ===== src/BookClient/Session/Loop.antt =====
-- PCom3/client.c: the loop of `main`, from the first command to `exit`.
pub mod Ends
pub mod Visits
use pcom_assignments.Prelude.{
  ℕ, zero, suc, ◌+◌, List, [], ◌∷◌, ◌++◌, Bool, true, false, Option, none, some,
}
use pcom_assignments.Prelude.Run.{Run, done, fault, out_of_fuel, ◌>>=◌}
use pcom_assignments.Prelude.Texts.{Text}
use pcom_assignments.BookClient.Session.{Json, Session, Console, Turn}
use pcom_assignments.BookClient.Session.Commands.{round}

-- What the loop leaves: the requests in their order, and all that was printed.
pub record Visit : Type 0 where
  pub session : Session
  pub console : Console
  pub requests : List Text
  pub printed : Text

abbrev pub with_request : Option Text → List Text → List Text
with_request none requests = requests
with_request (some request) requests = request ∷ requests

-- The number of the next request.
abbrev pub next_number : Option Text → ℕ → ℕ
next_number none sent = sent
next_number (some request) sent = sent + 1

-- What the rounds behind a turn add to it.
abbrev pub behind : Turn → Visit → Visit
behind t v = record {
  session = v.session;
  console = v.console;
  requests = with_request t.request v.requests;
  printed = t.printed ++ v.printed;
}

abbrev pub last : Turn → Visit
last t = record {
  session = t.session;
  console = t.console;
  requests = with_request t.request [];
  printed = t.printed;
}

-- `responses n` is what `receive_from_server` returns for the request with the number `n`.
module _ (json : Json) (host : Text) (responses : ℕ → Text) where
  -- `while (running)`, for at most `fuel` rounds.
  unfoldable pub main_loop : (fuel sent : ℕ) → Session → Console → Run Visit
  main_loop zero sent s con = fault out_of_fuel
  main_loop (suc fuel) sent s con = do
    t ← round json host s con (responses sent)
    elim t.running [
      | true ↦ do
        rest ← main_loop fuel (next_number t.request sent) t.session t.console
        done (behind t rest)
      | false ↦ done (last t)
    ]

  -- With neither cookie nor token, and nothing read.
  unfoldable pub main : (fuel : ℕ) → (input : Text) → Run Visit
  main fuel input =
      main_loop fuel 0 (record { cookie = none; jwt = none })
        (record { line_buf = none; input = input })
