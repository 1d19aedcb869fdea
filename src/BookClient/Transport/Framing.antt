-- ===== src/BookClient/Transport/Framing.antt =====
-- PCom3/helpers.c: a response is received whole, however the connection splits it.
pub mod Prefix
use mathlib.Core.List.{append-nil, append_assoc}
use mathlib.Core.Path.{subst}
use native.Mathlib.Decide.{dec_lt}
use pcom_assignments.Prelude.{
  ℕ, zero, suc, ◌+◌, ◌-◌, ◌%◌, ◌^◌, ◌≤◌, ◌<◌, ◌≡◌, ◌⊎◌, refl, sym, ap, ◌∙◌, arith, List, [], ◌∷◌,
  ◌++◌, map, Option, none, some, ltb, lt→ltb, le→not_ltb, if◌then◌else◌, drop, length,
  length-append, inl, inr,
}
use pcom_assignments.Prelude.Int.{ℤ, pos, negsuc, to_int, add_int, to_int_small, add_int_small}
use pcom_assignments.Prelude.Run.{
  Run, done, Returns, returns, Returns->>=, Returns-mono, Returns-eq,
}
use pcom_assignments.BookClient.Buffer.{
  Block, Buffer, buffer_init, buffer_add, as_int, buffer_find, buffer_find_insensitive,
}
use pcom_assignments.BookClient.Buffer.Holds.{
  IsData, Collects, buffer_init-Collects, buffer_add-Collects,
}
use pcom_assignments.BookClient.Buffer.Find.{
  FirstAt, Finds, buffer_find-Finds, buffer_find_insensitive-Finds,
}
use pcom_assignments.BookClient.Transport.{
  Read, received, failed, Head, to_size, header_terminator, content_length_text, all_written,
  contents, length_field, look, head_loop, body_loop, receive_from_server,
}
use pcom_assignments.BookClient.Transport.Framing.Prefix.{first_prefix, first_inside}

all_written-map : (xs : List ℕ) → all_written (map some xs) ≡ some xs
all_written-map [] = refl
all_written-map (x ∷ xs) = rw (all_written-map xs) refl

contents_lem : (b : Buffer) (xs : List ℕ) → Collects b xs → 0 < length xs → contents b ≡ done xs
unfolding contents
contents_lem b xs v used = by_block b.block refl
  where
    by_block : (p : Option Block) → b.block ≡ p → contents b ≡ done xs
    by_block none at = let nil : xs ≡ [] = rw at at v.bytes in absurd (omega (arith, ap length nil))
    by_block (some block) at =
        let full : block ≡ map some xs = rw at at v.bytes in simp (at, full, all_written-map xs)

-- Reads that give at least one byte each: the bytes of a read are its first one and the others.
abbrev pub chunks : List (ℕ × List ℕ) → List Read
chunks [] = []
chunks ((x, xs) ∷ cs) = received (x ∷ xs) ∷ chunks cs

abbrev pub joined : List (ℕ × List ℕ) → List ℕ
joined [] = []
joined ((x, xs) ∷ cs) = (x ∷ xs) ++ joined cs

-- A response of less than 2 ^ 31 bytes: its header ends at the first terminator, at `h`; its first
-- content length field, at `s`, is inside the header, and `strtol` reads from it, whatever part of
-- the response is there behind the header, the number `rest` of the bytes behind the header.
pub record IsResponse (tolower : ℕ → ℕ) (strtol : List ℕ → ℤ) (h s rest : ℕ) (bytes : List ℕ)
    : Type 0 where
  pub header_at : FirstAt (λ c. c) header_terminator bytes (some h)
  pub length_at : FirstAt tolower content_length_text bytes (some s)
  pub inside : s + 16 ≤ h
  pub tells :
      (ys zs : List ℕ) → ys ++ zs ≡ bytes → h + 4 ≤ length ys → strtol (drop (s + 16) ys) ≡ pos rest
  pub whole : length bytes ≡ h + 4 + rest
  pub fits : length bytes < 2 ^ 31

abbrev length_tail : List ℕ
length_tail = drop 1 content_length_text

module _ (tolower : ℕ → ℕ) (strtol : List ℕ → ℤ) (h s rest : ℕ) (bytes : List ℕ)
    (is : IsResponse tolower strtol h s rest bytes) where
  -- What the first loop sees in the bytes `ys` read so far.
  abbrev Seen : List ℕ → ℤ × Option ℤ → Type 0
  Seen ys r =
      ((r ≡ (pos (h + 4), some (pos rest))) × (h + 4 ≤ length ys))
      ⊎ ((r.1 ≡ none) × (length ys < h + 4))

  module _ (b : Buffer) (ys zs : List ℕ) (v : Collects b ys) (cut : ys ++ zs ≡ bytes) where
    header_here : FirstAt (λ c. c) header_terminator (ys ++ zs) (some h)
    header_here = rw cut is.header_at

    length_here : FirstAt tolower content_length_text (ys ++ zs) (some s)
    length_here = rw cut is.length_at

    length_lem : h + 4 ≤ length ys → length_field tolower strtol b ≡ done (some (pos rest))
    unfolding length_field
    length_lem room =
        let (z, e, found) =
          Returns-eq (buffer_find_insensitive-Finds tolower b ys content_length_text v) in
        let (o, int, first) = found in
        let same : o ≡ some s =
          first_prefix tolower 67 length_tail ys zs s o length_here (omega (arith, is.inside))
            first in
        let index =
          int ∙ ap as_int same ∙ to_int_small s (omega (arith, is.inside, is.whole, is.fits)) in
        rw
          (
            e ∙ ap done index,
            add_int_small s 16 (omega (arith, is.inside, is.whole, is.fits)),
            contents_lem b ys v (omega arith),
            is.tells ys zs cut room,
            to_int_small rest (omega (arith, is.whole, is.fits)),
          )
          refl

    look_lem : Returns (Seen ys) (look tolower strtol b)
    unfolding look
    look_lem =
        let (z, e, found) = Returns-eq (buffer_find-Finds b ys header_terminator v) in
        let (o, int, first) = found in by_end o (e ∙ ap done int) first
      where
        by_end :
            (o : Option ℕ)
            → buffer_find b header_terminator ≡ done (as_int o)
            → FirstAt (λ c. c) header_terminator ys o
            → Returns (Seen ys) (look tolower strtol b)
        by_end none e first = rw e (returns (inr (refl, short)))
          where
            short : length ys < h + 4
            short = elim (dec_lt (length ys) (h + 4)) [
              | yes lt ↦ lt
              | no ge ↦
                  let same : none ≡ some h =
                    first_prefix (λ c. c) 13 (10 ∷ 13 ∷ 10 ∷ []) ys zs h none header_here
                      (omega (arith, ge)) first in
                  absurd cc
            ]
        by_end (some i) e first =
            let room = first_inside (λ c. c) 13 (10 ∷ 13 ∷ 10 ∷ []) ys zs h i header_here first in
            let same =
              first_prefix (λ c. c) 13 (10 ∷ 13 ∷ 10 ∷ []) ys zs h (some i) header_here room
                first in
            rw
              (
                e
                    ∙ ap (λ (o : Option ℕ). done (as_int o)) same
                    ∙ ap done (to_int_small h (omega (arith, is.whole, is.fits))),
                add_int_small h 4 (omega (arith, is.whole, is.fits)),
                length_lem room,
              )
              (returns (inl (refl, room)))

  -- What the first loop leaves of the reads of a response.
  abbrev Ready : List Read → Option Head → Type 0
  Ready later o =
      (hd : Head) × (ys : List ℕ) × (cs : List (ℕ × List ℕ)) × (o ≡ some hd)
      × (hd.header_end ≡ pos (h + 4))
      × (hd.content_length ≡ pos rest)
      × Collects hd.buffer ys
      × (ys ++ joined cs ≡ bytes)
      × (hd.rest ≡ chunks cs ++ later)

  head_lem :
      (cs : List (ℕ × List ℕ)) (later : List Read) (b : Buffer) (ys : List ℕ) (header_end : ℤ)
      → Collects b ys
      → ys ++ joined cs ≡ bytes
      → length ys < h + 4
      → Returns (Ready later) (head_loop tolower strtol (chunks cs ++ later) b header_end)
  unfolding head_loop
  head_lem [] later b ys header_end v cut short =
      absurd (omega (arith, ap length cut, length-append ys [], is.whole))
  head_lem ((x, xs) ∷ cs) later b ys header_end v cut short =
      Returns->>= (buffer_add-Collects b ys (x ∷ xs) v) λ b' w.
        let cut' = append_assoc ys (x ∷ xs) (joined cs) ∙ cut in
        Returns->>= (look_lem b' (ys ++ x ∷ xs) (joined cs) w cut') λ r seen. elim seen [
          | inl (found, room) ↦ rw found (
              returns (
                _,
                ys ++ x ∷ xs,
                cs,
                refl,
                ap (λ (q : ℤ × Option ℤ). q.0) found,
                refl,
                w,
                cut',
                refl,
              ))
          | inr (missing, short') ↦
              rw missing (head_lem cs later b' (ys ++ x ∷ xs) r.0 w cut' short')
        ]

  -- The second loop reads the rest and nothing behind it.
  body_stop :
      (reads : List Read) (total : ℕ) (b : Buffer)
      → total ≤ b.size
      → body_loop total reads b ≡ done (some b)
  unfolding body_loop
  body_stop [] total b le = refl
  body_stop (failed ∷ reads) total b le = rw (le→not_ltb total b.size le) refl
  body_stop (received [] ∷ reads) total b le = refl
  body_stop (received (x ∷ xs) ∷ reads) total b le = rw (le→not_ltb total b.size le) refl

  body_lem :
      (cs : List (ℕ × List ℕ)) (later : List Read) (b : Buffer) (ys : List ℕ)
      → Collects b ys
      → ys ++ joined cs ≡ bytes
      → Returns
          (λ o. (b' : Buffer) × (o ≡ some b') × Collects b' bytes)
          (body_loop (length bytes) (chunks cs ++ later) b)
  unfolding body_loop
  body_lem [] later b ys v cut =
      let all : ys ≡ bytes = sym (append-nil ys) ∙ cut in
      rw (body_stop later (length bytes) b (omega (arith, v.counted, ap length all)))
        (returns (b, refl, subst (Collects b) all v))
  body_lem ((x, xs) ∷ cs) later b ys v cut =
      rw
        (lt→ltb b.size (length bytes)
          (omega (arith, v.counted, ap length cut, length-append ys (x ∷ xs ++ joined cs))))
        (Returns->>= (buffer_add-Collects b ys (x ∷ xs) v) λ b' w.
          body_lem cs later b' (ys ++ x ∷ xs) w (append_assoc ys (x ∷ xs) (joined cs) ∙ cut))

  -- For a response as above, in whatever reads of at least one byte it comes, and whatever follows
  -- it on the connection, `receive_from_server` returns its bytes and a NUL character.
  pub receive_from_server-joined :
      (cs : List (ℕ × List ℕ)) (later : List Read)
      → joined cs ≡ bytes
      → receive_from_server tolower strtol (chunks cs ++ later) ≡ done (some (bytes ++ 0 ∷ []))
  unfolding receive_from_server
  receive_from_server-joined cs later all =
      let (o, e, ready) =
        Returns-eq
          (head_lem cs later buffer_init [] (pos 0) buffer_init-Collects all (omega arith)) in
      let (hd, ys, cs', is_head, end, len, v, cut, left) = ready in
      let (o', e', filled) = Returns-eq (body_lem cs' later hd.buffer ys v cut) in
      let (b, is_full, w) = filled in
      let (b', e'', w') = Returns-eq (buffer_add-Collects b bytes (0 ∷ []) w) in
      let total = total_lem hd end len in
      rw
        (
          e ∙ ap done is_head,
          total,
          left,
          e' ∙ ap done is_full,
          e'',
          contents_lem b' (bytes ++ 0 ∷ []) w' (omega (arith, length-append bytes (0 ∷ []))),
        )
        refl
    where
      total_lem :
          (hd : Head)
          → hd.header_end ≡ pos (h + 4)
          → hd.content_length ≡ pos rest
          → (to_size hd.content_length + to_size hd.header_end) % 2 ^ 64 ≡ length bytes
      total_lem hd end len = rw (end, len) (omega (arith, is.whole, is.fits))
