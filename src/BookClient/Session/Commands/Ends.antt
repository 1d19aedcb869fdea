-- ===== src/BookClient/Session/Commands/Ends.antt =====
-- PCom3/client.c: what a command leaves of the input, at its end, and whether the loop goes on.
use mathlib.Core.Bool.{false≢true}
use pcom_assignments.Prelude.{
  ℕ, ◌≡◌, refl, sym, ◌∙◌, ap, inl, inr, [], ◌∷◌, true, false, Option, none, some, Bool-cases,
  Option-cases,
}
use pcom_assignments.Prelude.Int.{ℤ, pos, ltb_ℤ}
use pcom_assignments.Prelude.Run.{
  Run, done, fault, Whenever, whenever, faulted, Whenever->>=, Whenever-then, Whenever-mono,
  Whenever-if,
}
use pcom_assignments.Prelude.Texts.{Text, text, eq_text}
use pcom_assignments.BookClient.Stdio.{scan_int}
use pcom_assignments.BookClient.Requests.{
  compute_get_request, compute_post_request, compute_delete_request,
}
use pcom_assignments.BookClient.Session.{
  Json, Session, Console, Turn, access_path, books_path, logout_path, json_type, read_line, read_id,
  login_cookie, print_response, access_token, clear_stdin,
}
use pcom_assignments.BookClient.Session.Commands.{
  cookies, book_path, credentials_request, on_register, on_login, on_enter_library, on_get_books,
  on_get_book, on_delete_book, on_logout, on_add_book, send_book, book, run_command,
}

-- At the end of the input nothing changes: neither the input nor the line buffer.
abbrev pub Still : Console → Console → Type 0
Still con con' = con.input ≡ [] → con' ≡ con

Still-trans : {a b c : Console} → Still a b → Still b c → Still a c
Still-trans {a} {b} {c} f g e =
    let same = f e in g (ap (λ (con : Console). con.input) same ∙ e) ∙ same

-- Whatever a run leaves, if some input is there.
some_input :
    {A : Type 0} {P : A → Type 0} (c : ℕ) (s : Text) (r : Run A)
    → Whenever (λ a. c ∷ s ≡ [] → P a) r
some_input c s (done a) = whenever (λ e. cc)
some_input c s (fault e) = faulted

read_line_lem :
    (buf : Option Text) (input : Text)
    → Whenever
        (λ (u : Text × Console). Still (record { line_buf = buf; input = input }) u.1)
        (read_line (record { line_buf = buf; input = input }))
unfolding read_line
read_line_lem none [] = faulted
read_line_lem (some line) [] = whenever (λ e. refl)
read_line_lem buf (c ∷ s) = some_input c s (read_line (record { line_buf = buf; input = c ∷ s }))

read_line-Still : (con : Console) → Whenever (λ (u : Text × Console). Still con u.1) (read_line con)
read_line-Still con = read_line_lem con.line_buf con.input

scan_int-Still :
    (input : Text)
    → Whenever (λ (o : Option ℤ × Text). input ≡ [] → (o.0 ≡ none) × (o.1 ≡ [])) (scan_int input)
scan_int-Still [] = whenever (λ e. (refl, refl))
scan_int-Still (c ∷ s) = some_input c s (scan_int (c ∷ s))

read_id_lem :
    (buf : Option Text) (input : Text)
    → Whenever
        (λ (u : ℤ × Console). Still (record { line_buf = buf; input = input }) u.1)
        (read_id (record { line_buf = buf; input = input }))
unfolding read_id
read_id_lem buf [] = faulted
read_id_lem buf (c ∷ s) = some_input c s (read_id (record { line_buf = buf; input = c ∷ s }))

read_id-Still : (con : Console) → Whenever (λ (u : ℤ × Console). Still con u.1) (read_id con)
read_id-Still con = read_id_lem con.line_buf con.input

module _ (json : Json) (host : Text) (s : Session) (con : Console) (response : Text) where
  -- The loop goes on.
  abbrev GoesOn : Turn → Type 0
  GoesOn t = (t.running ≡ true) × Still con t.console

  on_register-GoesOn : Whenever GoesOn (on_register json host s con response)
  unfolding on_register
  on_register-GoesOn = Whenever-then (read_line-Still con) λ u st.
      Whenever-then (read_line-Still u.1) λ p st'.
        Whenever->>= (credentials_request json host _ u.0 p.0) λ m.
          Whenever->>= (print_response json response) λ shown. whenever (refl, Still-trans st st')

  on_login-GoesOn : Whenever GoesOn (on_login json host s con response)
  unfolding on_login
  on_login-GoesOn = Whenever-then (read_line-Still con) λ u st.
      Whenever-then (read_line-Still u.1) λ p st'.
        Whenever->>= (credentials_request json host _ u.0 p.0) λ m.
          Whenever->>= (print_response json response) λ shown.
            Whenever->>= (login_cookie s.cookie response)
              λ cookie. whenever (refl, Still-trans st st')

  on_enter_library-GoesOn : Whenever GoesOn (on_enter_library json host s con response)
  unfolding on_enter_library
  on_enter_library-GoesOn =
      Whenever->>= (compute_get_request host access_path none (cookies s) none) λ m.
        Whenever->>= (print_response json response)
          λ shown. Whenever->>= (access_token json s.jwt response) λ jwt. whenever (refl, λ e. refl)

  on_get_books-GoesOn : Whenever GoesOn (on_get_books json host s con response)
  unfolding on_get_books
  on_get_books-GoesOn =
      Whenever->>= (compute_get_request host books_path none (cookies s) s.jwt)
        λ m. Whenever->>= (print_response json response) λ shown. whenever (refl, λ e. refl)

  on_logout-GoesOn : Whenever GoesOn (on_logout json host s con response)
  unfolding on_logout
  on_logout-GoesOn =
      Whenever->>= (compute_get_request host logout_path none (cookies s) none)
        λ m. Whenever->>= (print_response json response) λ shown. whenever (refl, λ e. refl)

  on_get_book-GoesOn : Whenever GoesOn (on_get_book json host s con response)
  unfolding on_get_book
  on_get_book-GoesOn = Whenever-then (read_id-Still con) λ i st.
      Whenever->>= (book_path i.0) λ path.
        Whenever->>= (compute_get_request host path none (cookies s) s.jwt)
          λ m. Whenever->>= (print_response json response) λ shown. whenever (refl, st)

  on_delete_book-GoesOn : Whenever GoesOn (on_delete_book json host s con response)
  unfolding on_delete_book
  on_delete_book-GoesOn = Whenever-then (read_id-Still con) λ i st.
      Whenever->>= (book_path i.0) λ path.
        Whenever->>= (compute_delete_request host path (cookies s) s.jwt)
          λ m. Whenever->>= (print_response json response) λ shown. whenever (refl, st)

  -- Behind the last line, the number and the rest of its line leave the end of the input.
  number_Still :
      (con' : Console) (rest : Text)
      → Still con con'
      → (con'.input ≡ [] → clear_stdin rest ≡ [])
      → Still con (record con' { input = clear_stdin rest })
  number_Still con' rest st cleared = Still-trans st λ e. rw (cleared e, e) refl

  cleared_lem :
      {A : Type 0} {a : A} (x : A) (input rest : Text)
      → (input ≡ [] → (x ≡ a) × (rest ≡ []))
      → input ≡ []
      → clear_stdin rest ≡ []
  unfolding clear_stdin
  cleared_lem x input rest f e = rw ((f e).1) refl

  send_book-GoesOn :
      (con' : Console) (payload : Json.Value json)
      → Still con con'
      → Whenever GoesOn (send_book json host s con' payload response)
  unfolding send_book
  send_book-GoesOn con' payload st =
      Whenever->>=
        (compute_post_request host books_path json_type
          (some (Json.serialize_to_string_pretty json (some payload) ∷ [])) (cookies s) s.jwt)
        λ m. Whenever->>= (print_response json response) λ shown. whenever (refl, st)

  on_add_book-GoesOn : Whenever GoesOn (on_add_book json host s con response)
  unfolding on_add_book
  on_add_book-GoesOn = Whenever-then (read_line-Still con) λ title st₁.
      Whenever-then (read_line-Still title.1) λ author st₂.
        Whenever-then (read_line-Still author.1) λ genre st₃.
          Whenever-then (read_line-Still genre.1) λ publisher st₄.
            Whenever-then (scan_int-Still publisher.1.input) λ o end.
              let st =
                number_Still publisher.1 o.1
                  (Still-trans st₁ (Still-trans st₂ (Still-trans st₃ st₄)))
                  (cleared_lem o.0 publisher.1.input o.1 end) in
              elim (Option-cases o.0) [
                | inl unread ↦ rw unread (whenever (refl, st))
                | inr (n, has) ↦ rw has (elim (Bool-cases (ltb_ℤ n (pos 0))) [
                  | inl negative ↦ rw negative (whenever (refl, st))
                  | inr other ↦ rw other (
                      send_book-GoesOn (record publisher.1 { input = clear_stdin o.1 })
                        (book json host title.0 author.0 genre.0 publisher.0 n) st)
                ])
              ]

  -- `exit` ends the loop and nothing else does. No command, `exit` and an unknown one included,
  -- changes the input or the line buffer at the end of the input.
  abbrev pub Ends : (cmd : Text) → Turn → Type 0
  Ends cmd t =
      (t.running ≡ false → (eq_text cmd (text "exit") ≡ true) × (t.console ≡ con))
      × Still con t.console

  goes_on_lem : (cmd : Text) {r : Run Turn} → Whenever GoesOn r → Whenever (Ends cmd) r
  goes_on_lem cmd w = Whenever-mono w λ t g. ((λ off. absurd (false≢true (sym off ∙ g.0))), g.1)

  pub run_command-Ends :
      (cmd : Text) → Whenever (Ends cmd) (run_command json host cmd s con response)
  unfolding run_command
  run_command-Ends cmd =
      Whenever-if (eq_text cmd (text "register")) (λ e. goes_on_lem cmd on_register-GoesOn)
        λ e.
          Whenever-if (eq_text cmd (text "login")) (λ e. goes_on_lem cmd on_login-GoesOn)
            λ e.
              Whenever-if (eq_text cmd (text "enter_library"))
                (λ e. goes_on_lem cmd on_enter_library-GoesOn)
                λ e.
                  Whenever-if (eq_text cmd (text "get_books"))
                    (λ e. goes_on_lem cmd on_get_books-GoesOn)
                    λ e.
                      Whenever-if (eq_text cmd (text "get_book"))
                        (λ e. goes_on_lem cmd on_get_book-GoesOn)
                        λ e.
                          Whenever-if (eq_text cmd (text "add_book"))
                            (λ e. goes_on_lem cmd on_add_book-GoesOn)
                            λ e.
                              Whenever-if (eq_text cmd (text "delete_book"))
                                (λ e. goes_on_lem cmd on_delete_book-GoesOn)
                                λ e.
                                  Whenever-if (eq_text cmd (text "logout"))
                                    (λ e. goes_on_lem cmd on_logout-GoesOn)
                                    λ e.
                                      Whenever-if (eq_text cmd (text "exit"))
                                        (λ is. whenever ((λ off. (is, refl)), (λ e. refl)))
                                        λ e.
                                          whenever
                                            ((λ off. absurd (false≢true (sym off))), (λ e. refl))
