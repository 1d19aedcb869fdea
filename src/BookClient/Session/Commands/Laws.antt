-- ===== src/BookClient/Session/Commands/Laws.antt =====
-- PCom3/client.c: what the commands do to the session.
use mathlib.Core.Bool.{false≢true}
use pcom_assignments.Prelude.{
  ◌≡◌, refl, sym, ◌∙◌, inl, inr, [], ◌∷◌, false, none, some, Bool-cases, Option-cases,
}
use pcom_assignments.Prelude.Int.{pos, ltb_ℤ}
use pcom_assignments.Prelude.Run.{Run, Whenever, whenever, Whenever->>=, Whenever-mono, Whenever-if}
use pcom_assignments.Prelude.Texts.{Text, text, eq_text}
use pcom_assignments.BookClient.Stdio.{scan_int}
use pcom_assignments.BookClient.Requests.{
  compute_get_request, compute_post_request, compute_delete_request,
}
use pcom_assignments.BookClient.Session.{
  Json, Session, Console, Turn, access_path, books_path, logout_path, json_type, read_line, read_id,
  login_cookie, print_response, access_token, clear_stdin,
}
use pcom_assignments.BookClient.Session.Commands.{
  cookies, book_path, credentials_request, on_register, on_login, on_enter_library, on_get_books,
  on_get_book, on_delete_book, on_logout, on_add_book, send_book, book, run_command,
}

module _ (json : Json) (host : Text) (s : Session) (con : Console) (response : Text) where
  abbrev Same : Turn → Type 0
  Same t = (t.session.cookie ≡ s.cookie) × (t.session.jwt ≡ s.jwt)

  on_register-Same : Whenever Same (on_register json host s con response)
  unfolding on_register
  on_register-Same = Whenever->>= (read_line con) λ u. Whenever->>= (read_line u.1) λ p.
      Whenever->>= (credentials_request json host _ u.0 p.0)
        λ m. Whenever->>= (print_response json response) λ shown. whenever (refl, refl)

  on_get_books-Same : Whenever Same (on_get_books json host s con response)
  unfolding on_get_books
  on_get_books-Same =
      Whenever->>= (compute_get_request host books_path none (cookies s) s.jwt)
        λ m. Whenever->>= (print_response json response) λ shown. whenever (refl, refl)

  on_logout-Same : Whenever Same (on_logout json host s con response)
  unfolding on_logout
  on_logout-Same =
      Whenever->>= (compute_get_request host logout_path none (cookies s) none)
        λ m. Whenever->>= (print_response json response) λ shown. whenever (refl, refl)

  on_get_book-Same : Whenever Same (on_get_book json host s con response)
  unfolding on_get_book
  on_get_book-Same = Whenever->>= (read_id con) λ i. Whenever->>= (book_path i.0) λ path.
      Whenever->>= (compute_get_request host path none (cookies s) s.jwt)
        λ m. Whenever->>= (print_response json response) λ shown. whenever (refl, refl)

  on_delete_book-Same : Whenever Same (on_delete_book json host s con response)
  unfolding on_delete_book
  on_delete_book-Same = Whenever->>= (read_id con) λ i. Whenever->>= (book_path i.0) λ path.
      Whenever->>= (compute_delete_request host path (cookies s) s.jwt)
        λ m. Whenever->>= (print_response json response) λ shown. whenever (refl, refl)

  send_book-Same :
      (con' : Console) (payload : Json.Value json)
      → Whenever Same (send_book json host s con' payload response)
  unfolding send_book
  send_book-Same con' payload =
      Whenever->>=
        (compute_post_request host books_path json_type
          (some (Json.serialize_to_string_pretty json (some payload) ∷ [])) (cookies s) s.jwt)
        λ m. Whenever->>= (print_response json response) λ shown. whenever (refl, refl)

  on_add_book-Same : Whenever Same (on_add_book json host s con response)
  unfolding on_add_book
  on_add_book-Same = Whenever->>= (read_line con) λ title.
      Whenever->>= (read_line title.1) λ author. Whenever->>= (read_line author.1) λ genre.
        Whenever->>= (read_line genre.1) λ publisher. Whenever->>= (scan_int publisher.1.input) λ o.
          elim (Option-cases o.0) [
            | inl unread ↦ rw unread (whenever (refl, refl))
            | inr (n, has) ↦ rw has (elim (Bool-cases (ltb_ℤ n (pos 0))) [
              | inl negative ↦ rw negative (whenever (refl, refl))
              | inr other ↦ rw other (
                  send_book-Same
                    (record { line_buf = publisher.1.line_buf; input = clear_stdin o.1 })
                    (book json host title.0 author.0 genre.0 publisher.0 n))
            ])
          ]

  on_login-jwt : Whenever (λ (t : Turn). t.session.jwt ≡ s.jwt) (on_login json host s con response)
  unfolding on_login
  on_login-jwt = Whenever->>= (read_line con) λ u. Whenever->>= (read_line u.1) λ p.
      Whenever->>= (credentials_request json host _ u.0 p.0) λ m.
        Whenever->>= (print_response json response)
          λ shown. Whenever->>= (login_cookie s.cookie response) λ cookie. whenever refl

  on_enter_library-cookie :
      Whenever
        (λ (t : Turn). t.session.cookie ≡ s.cookie)
        (on_enter_library json host s con response)
  unfolding on_enter_library
  on_enter_library-cookie =
      Whenever->>= (compute_get_request host access_path none (cookies s) none) λ m.
        Whenever->>= (print_response json response)
          λ shown. Whenever->>= (access_token json s.jwt response) λ jwt. whenever refl

  abbrev pub Keeps : (cmd : Text) → Turn → Type 0
  Keeps cmd t =
      (eq_text cmd (text "login") ≡ false → t.session.cookie ≡ s.cookie)
      × (eq_text cmd (text "enter_library") ≡ false → t.session.jwt ≡ s.jwt)

  same_lem : (cmd : Text) {r : Run Turn} → Whenever Same r → Whenever (Keeps cmd) r
  same_lem cmd w = Whenever-mono w λ t same. ((λ e. same.0), (λ e. same.1))

  -- No command but `login` changes the session cookie, and none but `enter_library` the token: not even
  -- `logout`.
  pub run_command-Keeps :
      (cmd : Text) → Whenever (Keeps cmd) (run_command json host cmd s con response)
  unfolding run_command
  run_command-Keeps cmd =
      Whenever-if (eq_text cmd (text "register")) (λ e. same_lem cmd on_register-Same)
        λ e.
          Whenever-if (eq_text cmd (text "login"))
            (λ is.
              Whenever-mono on_login-jwt
                λ t same. ((λ other. absurd (false≢true (sym other ∙ is))), (λ e. same)))
            λ e.
              Whenever-if (eq_text cmd (text "enter_library"))
                (λ is.
                  Whenever-mono on_enter_library-cookie
                    λ t same. ((λ e. same), (λ other. absurd (false≢true (sym other ∙ is)))))
                λ e.
                  Whenever-if (eq_text cmd (text "get_books")) (λ e. same_lem cmd on_get_books-Same)
                    λ e.
                      Whenever-if (eq_text cmd (text "get_book"))
                        (λ e. same_lem cmd on_get_book-Same)
                        λ e.
                          Whenever-if (eq_text cmd (text "add_book"))
                            (λ e. same_lem cmd on_add_book-Same)
                            λ e.
                              Whenever-if (eq_text cmd (text "delete_book"))
                                (λ e. same_lem cmd on_delete_book-Same)
                                λ e.
                                  Whenever-if (eq_text cmd (text "logout"))
                                    (λ e. same_lem cmd on_logout-Same)
                                    λ e.
                                      Whenever-if (eq_text cmd (text "exit"))
                                        (λ e. whenever ((λ e. refl), (λ e. refl)))
                                        λ e. whenever ((λ e. refl), (λ e. refl))
