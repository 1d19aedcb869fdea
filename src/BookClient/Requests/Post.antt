-- ===== src/BookClient/Requests/Post.antt =====
-- PCom3/requests.c: the text of a request with a body.
use mathlib.Core.List.{append-nil, append_assoc}
use pcom_assignments.Prelude.{
  ℕ, ◌+◌, ◌<◌, ◌≡◌, refl, sym, ap, ◌∙◌, arith, List, [], ◌∷◌, ◌++◌, false, Option, some, ◌==◌,
  length, length-append,
}
use pcom_assignments.Prelude.Run.{done}
use pcom_assignments.Prelude.Texts.{Text, text}
use pcom_assignments.BookClient.Stdio.{decimal, drop_last}
use pcom_assignments.BookClient.Requests.{
  buflen, linelen, line_end, body_loop, body_text, compute_post_request,
}
use pcom_assignments.BookClient.Requests.Fits.{
  unlines, unlines-append, authorization_lines, cookie_lines, known, AreShort, AreShort-append,
  put_lem, compute_message_lem, authorization_lem, cookies_lem,
}

joined_lem :
    (x y a t l c n b rest inner : Text)
    → rest ≡ a ++ (t ++ (l ++ inner))
    → inner ≡ c ++ (n ++ (b ++ []))
    → x ++ (y ++ rest) ≡ (((((((x ++ y) ++ a) ++ t) ++ l) ++ c) ++ n) ++ b)
joined_lem x y a t l c n b rest inner e f = rw (e, f, append-nil b) (simp append_assoc)

module _ (host url content_type body : Text) (cookies : Option (List Text))
    (jwt : Option Text) where
  -- The lines behind the token.
  abbrev body_lines : List Text
  body_lines =
      (text "Content-Type: " ++ content_type)
        ∷ (text "Content-Length: " ++ decimal (length body))
        ∷ cookie_lines cookies
      ++ ([] ∷ body ∷ [])

  abbrev pub post_lines : List Text
  post_lines =
      (text "POST " ++ (url ++ text " HTTP/1.1"))
        ∷ (text "Host: " ++ host)
        ∷ authorization_lines jwt
      ++ body_lines

  -- The text of the lines, one behind the other.
  post_lines-parts :
      unlines post_lines
      ≡ ((((((((text "POST " ++ (url ++ text " HTTP/1.1")) ++ line_end)
                    ++ ((text "Host: " ++ host) ++ line_end))
                  ++ unlines (authorization_lines jwt))
                ++ ((text "Content-Type: " ++ content_type) ++ line_end))
              ++ ((text "Content-Length: " ++ decimal (length body)) ++ line_end))
            ++ unlines (cookie_lines cookies))
          ++ line_end)
        ++ (body ++ line_end)
  post_lines-parts =
      let e = unlines-append (authorization_lines jwt) body_lines in
      let f = unlines-append (cookie_lines cookies) ([] ∷ body ∷ []) in
      joined_lem ((text "POST " ++ (url ++ text " HTTP/1.1")) ++ line_end)
        ((text "Host: " ++ host) ++ line_end) (unlines (authorization_lines jwt))
        ((text "Content-Type: " ++ content_type) ++ line_end)
        ((text "Content-Length: " ++ decimal (length body)) ++ line_end)
        (unlines (cookie_lines cookies)) line_end (body ++ line_end)
        (unlines (authorization_lines jwt ++ body_lines))
        (unlines (cookie_lines cookies ++ ([] ∷ body ∷ []))) e f

drop_last-append : (body : Text) (c : ℕ) → drop_last (body ++ c ∷ []) ≡ body
drop_last-append [] c = refl
drop_last-append (a ∷ []) c = refl
drop_last-append (a ∷ b ∷ body) c = ap (◌∷◌ a) (drop_last-append (b ∷ body) c)

-- One field is the body.
body_text_lem :
    (body : Text) → length body + 1 < linelen → body_text (some (some body ∷ [])) ≡ done body
unfolding body_text body_loop
body_text_lem body short =
    let size = length-append body (text "&") in
    let full : (length (body ++ text "&") == 0) ≡ false = ground (arith, size) in
    rw
      (
        put_lem linelen (body ++ text "&") (omega (arith, size, short)),
        full,
        drop_last-append body 38,
      )
      refl

module _ (host url content_type body : Text) (cookies : Option (List Text))
    (jwt : Option Text) where
  -- If each line of the request has less than 1000 characters, the body less than 999, and all of them
  -- with their line ends less than 4096, and no cookie is NULL, then `compute_post_request` with this
  -- one field returns exactly these lines, of which Content-Length has the length of the body.
  pub compute_post_request-unlines :
      AreShort (post_lines host url content_type body cookies jwt)
      → length body + 1 < linelen
      → length (unlines (post_lines host url content_type body cookies jwt)) < buflen
      → compute_post_request host url content_type (some (some body ∷ [])) (known cookies) jwt
        ≡ done (unlines (post_lines host url content_type body cookies jwt))
  unfolding compute_post_request
  compute_post_request-unlines short body_short fits =
      let first = text "POST " ++ (url ++ text " HTTP/1.1") in
      let host_line = text "Host: " ++ host in
      let type_line = text "Content-Type: " ++ content_type in
      let length_line = text "Content-Length: " ++ decimal (length body) in
      let a = unlines (authorization_lines jwt) in
      let c = unlines (cookie_lines cookies) in
      let m₁ = first ++ line_end in
      let m₂ = m₁ ++ (host_line ++ line_end) in
      let m₃ = m₂ ++ a in
      let m₄ = m₃ ++ (type_line ++ line_end) in
      let m₅ = m₄ ++ (length_line ++ line_end) in
      let m₆ = m₅ ++ c in
      let m₇ = m₆ ++ line_end in
      let len₁ = length-append first line_end in
      let len₂ = length-append m₁ (host_line ++ line_end) in
      let part₂ = length-append host_line line_end in
      let len₃ = length-append m₂ a in
      let len₄ = length-append m₃ (type_line ++ line_end) in
      let part₄ = length-append type_line line_end in
      let len₅ = length-append m₄ (length_line ++ line_end) in
      let part₅ = length-append length_line line_end in
      let len₆ = length-append m₅ c in
      let len₇ = length-append m₆ line_end in
      let len₈ = length-append m₇ (body ++ line_end) in
      let part₈ = length-append body line_end in
      let parts : unlines (post_lines host url content_type body cookies jwt)
          ≡ m₇ ++ (body ++ line_end) =
        post_lines-parts host url content_type body cookies jwt in
      let behind =
        AreShort-append (authorization_lines jwt)
          (body_lines host url content_type body cookies jwt) short.1.1 in
      let inner = AreShort-append (cookie_lines cookies) ([] ∷ body ∷ []) behind.1.1.1 in
      let total : length first
            + 2
            + (length host_line + 2)
            + length a
            + (length type_line + 2)
            + (length length_line + 2)
            + length c
            + 2
            + (length body + 2)
          < buflen =
        omega (
          arith,
          fits,
          ap length parts,
          len₁,
          len₂,
          part₂,
          len₃,
          len₄,
          part₄,
          len₅,
          part₅,
          len₆,
          len₇,
          len₈,
          part₈,
        ) in
      rw
        (
          put_lem linelen first short.0,
          compute_message_lem [] first (omega (arith, total)),
          put_lem linelen host_line short.1.0,
          compute_message_lem m₁ host_line (omega (arith, total, len₁)),
          authorization_lem m₂ jwt behind.0 (omega (arith, total, len₁, len₂, part₂)),
          put_lem linelen type_line behind.1.0,
          compute_message_lem m₃ type_line (omega (arith, total, len₁, len₂, part₂, len₃)),
          body_text_lem body body_short,
          put_lem linelen length_line behind.1.1.0,
          compute_message_lem m₄ length_line
              (omega (arith, total, len₁, len₂, part₂, len₃, len₄, part₄)),
          cookies_lem m₅ cookies inner.0
              (omega (arith, total, len₁, len₂, part₂, len₃, len₄, part₄, len₅, part₅)),
          compute_message_lem m₆ []
              (omega (arith, total, len₁, len₂, part₂, len₃, len₄, part₄, len₅, part₅, len₆)),
        )
        (compute_message_lem m₇ body
            (omega (arith, total, len₁, len₂, part₂, len₃, len₄, part₄, len₅, part₅, len₆, len₇))
          ∙ ap done (sym parts))
