-- ===== src/BookClient/Session/Loop/Ends.antt =====
-- PCom3/client.c: when the loop of `main` ends.
use pcom_assignments.Prelude.{
  ℕ, zero, suc, ◌≡◌, refl, ◌∙◌, inl, inr, [], true, false, Option, none, some, Bool-cases,
}
use pcom_assignments.Prelude.Run.{
  done, uninitialised, ◌>>=◌, require, Whenever, whenever, faulted, Whenever-then, Whenever-mono,
}
use pcom_assignments.Prelude.Texts.{Text, text, eq_text}
use pcom_assignments.BookClient.Stdio.{drop_last, fgets}
use pcom_assignments.BookClient.Requests.{linelen}
use pcom_assignments.BookClient.Session.{Json, Session, Console, Turn, read_line}
use pcom_assignments.BookClient.Session.Commands.{round}
use pcom_assignments.BookClient.Session.Commands.Ends.{run_command-Ends}
use pcom_assignments.BookClient.Requests.{buflen}
use pcom_assignments.BookClient.Requests.Fits.{unlines, AreShort}
use pcom_assignments.BookClient.Session.Commands.Exchange.{on_get_books-request}
use pcom_assignments.BookClient.Session.Commands.Logout.{kept, books_lines, get_books_lem}
use pcom_assignments.BookClient.Session.{print_response}
use pcom_assignments.BookClient.Session.Commands.{run_command}
use pcom_assignments.Prelude.{◌<◌, length}
use pcom_assignments.Prelude.Run.{fault, out_of_fuel}
use pcom_assignments.BookClient.Session.Loop.{Visit, next_number, main_loop}

-- The line buffer has a line, and that without its last character is `cmd`.
abbrev pub HasCommand : Console → Text → Type 0
HasCommand con cmd = (line : Text) × (con.line_buf ≡ some line) × (cmd ≡ drop_last line)

read_line-HasCommand :
    (con : Console) → Whenever (λ (u : Text × Console). HasCommand u.1 u.0) (read_line con)
unfolding read_line
read_line-HasCommand con = by_line (fgets linelen con.line_buf con.input)
  where
    by_line :
        (f : Option Text × Text)
        → Whenever
            (λ (u : Text × Console). HasCommand u.1 u.0)
            (require uninitialised f.0 >>= λ line.
              done (drop_last line, record { line_buf = f.0; input = f.1 }))
    by_line (none, rest) = faulted
    by_line (some line, rest) = whenever (line, refl, refl)

module _ (json : Json) (host : Text) where
  -- A round that ends the loop has read `exit`.
  round-exit :
      (s : Session) (con : Console) (response : Text)
      → Whenever
          (λ (t : Turn).
            t.running ≡ false
            → (cmd : Text) × HasCommand t.console cmd × (eq_text cmd (text "exit") ≡ true))
          (round json host s con response)
  unfolding round
  round-exit s con response = Whenever-then (read_line-HasCommand con) λ u has.
      Whenever-mono (run_command-Ends json host s u.1 response u.0)
        λ t ends off. let (is, same) = ends.0 off in (u.0, rw same has, is)

  -- At the end of the input the last line is read once more.
  round_at_end :
      (s : Session) (response : Text)
      → let con : Console = record { line_buf = some (text "get_books\n"); input = [] } in
        round json host s con response ≡ run_command json host (text "get_books") s con response
  unfolding round read_line
  round_at_end s response = refl

  module _ (responses : ℕ → Text) where
    -- Whatever the input and the responses: when the loop returns, the last line read is `exit` with a
    -- character behind it.
    pub main_loop-exit :
        (fuel sent : ℕ) (s : Session) (con : Console)
        → Whenever
            (λ (v : Visit).
              (cmd : Text) × HasCommand v.console cmd × (eq_text cmd (text "exit") ≡ true))
            (main_loop json host responses fuel sent s con)
    unfolding main_loop
    main_loop-exit zero sent s con = faulted
    main_loop-exit (suc fuel) sent s con =
        Whenever-then (round-exit s con (responses sent)) λ t last. elim (Bool-cases t.running) [
          | inl on ↦ rw on (
              Whenever-then (main_loop-exit fuel (next_number t.request sent) t.session t.console)
                λ v w. whenever w)
          | inr off ↦ rw off (whenever (last off))
        ]

    -- A round that changes nothing and does not end the loop is repeated without end.
    main_loop_again :
        (s : Session) (con : Console) (t : (k : ℕ) → Turn)
        → ((k : ℕ) → round json host s con (responses k) ≡ done (t k))
        → ((k : ℕ) → (t k).running ≡ true)
        → ((k : ℕ) → (t k).session ≡ s)
        → ((k : ℕ) → (t k).console ≡ con)
        → (fuel sent : ℕ) → main_loop json host responses fuel sent s con ≡ fault out_of_fuel
    unfolding main_loop
    main_loop_again s con t at on same_session same_console zero sent = refl
    main_loop_again s con t at on same_session same_console (suc fuel) sent =
        rw
          (
            at sent,
            on sent,
            same_session sent,
            same_console sent,
            main_loop_again s con t at on same_session same_console fuel
                (next_number (t sent).request sent),
          )
          refl

    -- At the end of the input, behind a last line `get_books`, for a session with a cookie and a token,
    -- a request whose lines fit, and responses that are all printed: every round returns, has sent the
    -- request for the books once more and leaves the session, the line and the input as they are, so
    -- that the loop does not end: it uses up any number of rounds, with no fault of its own.
    pub main_loop_repeats :
        (cookie token : Text)
        → AreShort (books_lines host cookie token)
        → length (unlines (books_lines host cookie token)) < buflen
        → (shown : ℕ → Text) → ((k : ℕ) → print_response json (responses k) ≡ done (shown k))
        → let s : Session = record { cookie = some cookie; jwt = some token } in
          let con : Console = record { line_buf = some (text "get_books\n"); input = [] } in
          ((k : ℕ)
            → round json host s con (responses k)
              ≡ done (kept s con (books_lines host cookie token) (shown k)))
          × ((fuel sent : ℕ) → main_loop json host responses fuel sent s con ≡ fault out_of_fuel)
    main_loop_repeats cookie token short fits shown prints =
        let s : Session = record { cookie = some cookie; jwt = some token } in
        let con : Console = record { line_buf = some (text "get_books\n"); input = [] } in
        let at : (k : ℕ)
            → round json host s con (responses k)
              ≡ done (kept s con (books_lines host cookie token) (shown k)) =
          λ k.
            round_at_end s (responses k)
            ∙ get_books_lem json host s con (responses k)
            ∙ on_get_books-request json host con cookie token short fits (responses k) (shown k)
                (prints k) in
        (
          at,
          main_loop_again s con (λ k. kept s con (books_lines host cookie token) (shown k)) at
              (λ k. refl) (λ k. refl) (λ k. refl),
        )
