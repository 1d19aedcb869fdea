-- ===== src/BookClient/Buffer/Find.antt =====
-- PCom3/buffer.c: the searches find the first occurrence of their pattern.
use mathlib.Core.Bool.{false≢true}
use pcom_assignments.Prelude.{
  ℕ, zero, suc, ◌+◌, ◌-◌, ◌≤◌, ◌<◌, ◌≡◌, refl, sym, ap, ◌∙◌, ◌↔◌, arith, List, [], ◌∷◌, map, Bool,
  true, false, Option, none, some, ◌==◌, ltb, lt→ltb, le→not_ltb, if◌then◌else◌, get_elem?,
  get_elem?_lt, lt_of_get_elem?, length, get_elem?-append, Bool-cases, inl, inr, ==_iff,
}
use mathlib.Core.List.{append-nil}
use mathlib.Core.Path.{subst}
use native.Mathlib.Decide.{dec_lt}
use pcom_assignments.Prelude.Int.{ℤ}
use pcom_assignments.Prelude.Run.{done, Returns, returns, Returns->>=, Returns-mono}
use pcom_assignments.BookClient.Buffer.{
  Block, Buffer, cell, matches_from, find_from, find_index, as_int, buffer_find,
  buffer_find_insensitive,
}
use pcom_assignments.BookClient.Buffer.Holds.{Collects}

-- The pattern stands in `xs` from index `i` on, up to what `f` does not tell apart.
abbrev pub OccursAt : (f : ℕ → ℕ) (pattern xs : List ℕ) → ℕ → Type 0
OccursAt f pattern xs i =
    (j c : ℕ)
    → get_elem? pattern j ≡ some c
    → (x : ℕ) × (get_elem? xs (i + j) ≡ some x) × (f x ≡ f c)

-- The least index at which the pattern occurs, or `none` if it occurs nowhere.
abbrev pub FirstAt : (f : ℕ → ℕ) (pattern xs : List ℕ) → Option ℕ → Type 0
FirstAt f pattern xs none = (i : ℕ) → ¬ OccursAt f pattern xs i
FirstAt f pattern xs (some i) =
    OccursAt f pattern xs i × ((k : ℕ) → k < i → ¬ OccursAt f pattern xs k)

cell_lem : (xs : List ℕ) (a x : ℕ) → get_elem? xs a ≡ some x → cell (some (map some xs)) a ≡ done x
unfolding cell
cell_lem xs a x at = rw (found) refl
  where
    found : get_elem? (map some xs) a ≡ some (some x)
    found =
        ap (λ (l : List (Option ℕ)). get_elem? l a) (sym (append-nil (map some xs)))
        ∙ get_elem?-append xs [] a at

module _ (f : ℕ → ℕ) (xs : List ℕ) where
  -- One more character in front of the pattern.
  OccursAt-cons :
      (c : ℕ) (pattern : List ℕ) (a x : ℕ)
      → get_elem? xs a ≡ some x
      → f x ≡ f c
      → OccursAt f pattern xs (a + 1)
      → OccursAt f (c ∷ pattern) xs a
  OccursAt-cons c pattern a x at same rest zero d e =
      (x, ap (get_elem? xs) (omega arith) ∙ at, same ∙ ap f (ground arith))
  OccursAt-cons c pattern a x at same rest (suc j) d e =
      let (y, ey, fy) = rest j d e in (y, ap (get_elem? xs) (omega arith) ∙ ey, fy)

  OccursAt-head :
      (c : ℕ) (pattern : List ℕ) (a x : ℕ)
      → get_elem? xs a ≡ some x
      → OccursAt f (c ∷ pattern) xs a
      → f x ≡ f c
  OccursAt-head c pattern a x at o =
      let (y, ey, fy) = o 0 c refl in
      let same : some x ≡ some y = sym at ∙ ap (get_elem? xs) (omega arith) ∙ ey in
      ap f (ground arith) ∙ fy

  OccursAt-tail :
      (c : ℕ) (pattern : List ℕ) (a : ℕ)
      → OccursAt f (c ∷ pattern) xs a
      → OccursAt f pattern xs (a + 1)
  OccursAt-tail c pattern a o j d e =
      let (y, ey, fy) = o (suc j) d e in (y, ap (get_elem? xs) (omega arith) ∙ ey, fy)

  matches_lem :
      (pattern : List ℕ) (a : ℕ)
      → a + length pattern ≤ length xs
      → Returns
          (λ hit. (hit ≡ true) ↔ OccursAt f pattern xs a)
          (matches_from f (some (map some xs)) a pattern)
  unfolding matches_from
  matches_lem [] a fits = returns ((λ _ j c e. absurd cc), (λ _. refl))
  matches_lem (c ∷ pattern) a fits =
      let (x, at) = get_elem?_lt xs a (omega arith) in
      rw (cell_lem xs a x at) (by_test x at (matches_lem pattern (a + 1) (omega arith)))
    where
      by_test :
          (x : ℕ)
          → get_elem? xs a ≡ some x
          → Returns
              (λ hit. (hit ≡ true) ↔ OccursAt f pattern xs (a + 1))
              (matches_from f (some (map some xs)) (a + 1) pattern)
          → Returns
              (λ hit. (hit ≡ true) ↔ OccursAt f (c ∷ pattern) xs a)
              (if f x == f c
                then matches_from f (some (map some xs)) (a + 1) pattern
                else done false)
      by_test x at rest = elim (Bool-cases (f x == f c)) [
        | inl same ↦ rw same (
            Returns-mono rest λ hit v. (
              (λ e. OccursAt-cons c pattern a x at ((==_iff (f x) (f c)).0 same) (v.0 e)),
              (λ o. v.1 (OccursAt-tail c pattern a o)),
            ))
        | inr other ↦ rw other (
            returns (
              (λ e. absurd (false≢true e)),
              (λ o. absurd (
                  false≢true
                    (sym other ∙ (==_iff (f x) (f c)).1 (OccursAt-head c pattern a x at o)))),
            ))
      ]

  -- A pattern that does not fit behind `k` does not stand there.
  too_long :
      (c : ℕ) (pattern : List ℕ) (k : ℕ)
      → length xs < k + length (c ∷ pattern)
      → ¬ OccursAt f (c ∷ pattern) xs k
  too_long c pattern k long o =
      let (d, e) = get_elem?_lt (c ∷ pattern) (length pattern) (omega arith) in
      let (y, ey, _) = o (length pattern) d e in
      omega (arith, lt_of_get_elem? xs (k + length pattern) ey)

  find_lem :
      (c : ℕ) (pattern : List ℕ) (left i : ℕ)
      → i + left + length (c ∷ pattern) ≡ length xs + 1
      → ((k : ℕ) → k < i → ¬ OccursAt f (c ∷ pattern) xs k)
      → Returns (FirstAt f (c ∷ pattern) xs) (find_from f (some (map some xs)) (c ∷ pattern) left i)
  unfolding find_from
  find_lem c pattern zero i room before =
      returns
        λ k. elim (dec_lt k i) [ yes lt ↦ before k lt | no ge ↦ too_long c pattern k (omega arith) ]
  find_lem c pattern (suc left) i room before =
      Returns->>= (matches_lem (c ∷ pattern) i (omega arith))
        λ hit v. by_hit hit v (find_lem c pattern left (i + 1) (omega arith))
    where
      by_hit :
          (hit : Bool)
          → (hit ≡ true) ↔ OccursAt f (c ∷ pattern) xs i
          → (((k : ℕ) → k < i + 1 → ¬ OccursAt f (c ∷ pattern) xs k)
              → Returns
                  (FirstAt f (c ∷ pattern) xs)
                  (find_from f (some (map some xs)) (c ∷ pattern) left (i + 1)))
          → Returns (FirstAt f (c ∷ pattern) xs) (
              if hit
              then done (some i)
              else find_from f (some (map some xs)) (c ∷ pattern) left (i + 1))
      by_hit true v next = returns (v.0 refl, before)
      by_hit false v next = next λ k lt. elim (dec_lt k i) [
        | yes below ↦ before k below
        | no ge ↦ λ o. false≢true (v.1 (subst (OccursAt f (c ∷ pattern) xs) (omega arith) o))
      ]

  search_lem :
      (b : Buffer) (pattern : List ℕ)
      → Collects b xs
      → Returns (FirstAt f pattern xs) (
          if ltb b.size (length pattern)
          then done none
          else find_from f b.block pattern (b.size - length pattern + 1) 0)
  unfolding find_from matches_from
  search_lem b [] v =
      let rounds : b.size - 0 + 1 ≡ suc b.size = omega arith in
      rw (le→not_ltb 0 b.size (omega arith), rounds)
        (returns ((λ j c e. absurd cc), (λ k lt. absurd (omega arith))))
  search_lem b (c ∷ pattern) v = elim (dec_lt b.size (length (c ∷ pattern))) [
    | yes short ↦
        rw (lt→ltb b.size (length (c ∷ pattern)) short)
          (returns λ k. too_long c pattern k (omega (arith, v.counted, short)))
    | no enough ↦
        rw (le→not_ltb (length (c ∷ pattern)) b.size (omega (arith, enough)))
          (by_block b.block refl (omega (arith, enough)))
  ]
    where
      by_block :
          (p : Option Block)
          → b.block ≡ p
          → length (c ∷ pattern) ≤ b.size
          → Returns
              (FirstAt f (c ∷ pattern) xs)
              (find_from f b.block (c ∷ pattern) (b.size - length (c ∷ pattern) + 1) 0)
      by_block none at enough =
          let nil : xs ≡ [] = rw at at v.bytes in
          absurd (omega (arith, v.counted, ap length nil, enough))
      by_block (some block) at enough =
          let full : block ≡ map some xs = rw at at v.bytes in
          simp (at, full)
            (find_lem c pattern (b.size - length (c ∷ pattern) + 1) 0
              (omega (arith, v.counted, enough)) (λ k lt. absurd (omega arith)))

-- What the searches return for the bytes `xs`: the first index at which the pattern occurs, as an
-- int, or -1 if it occurs nowhere.
abbrev pub Finds : (f : ℕ → ℕ) → (pattern xs : List ℕ) → ℤ → Type 0
Finds f pattern xs z = (o : Option ℕ) × (z ≡ as_int o) × FirstAt f pattern xs o

-- On a buffer of the bytes `xs`, `buffer_find` reads no cell outside.
pub buffer_find-Finds :
    (b : Buffer) (xs pattern : List ℕ)
    → Collects b xs
    → Returns (Finds (λ c. c) pattern xs) (buffer_find b pattern)
unfolding buffer_find find_index
buffer_find-Finds b xs pattern v =
    Returns->>= (search_lem (λ c. c) xs b pattern v) λ o first. returns (o, refl, first)

-- On a buffer of the bytes `xs`, `buffer_find_insensitive` reads no cell outside, and characters are
-- compared up to `tolower`.
pub buffer_find_insensitive-Finds :
    (tolower : ℕ → ℕ) (b : Buffer) (xs pattern : List ℕ)
    → Collects b xs
    → Returns (Finds tolower pattern xs) (buffer_find_insensitive tolower b pattern)
unfolding buffer_find_insensitive find_index
buffer_find_insensitive-Finds tolower b xs pattern v =
    Returns->>= (search_lem tolower xs b pattern v) λ o first. returns (o, refl, first)

-- On a buffer of the bytes `xs` the index is that of the first occurrence.
pub find_index-FirstAt :
    (f : ℕ → ℕ) (b : Buffer) (xs pattern : List ℕ)
    → Collects b xs
    → Returns (FirstAt f pattern xs) (find_index f b pattern)
unfolding find_index
find_index-FirstAt f b xs pattern v = search_lem f xs b pattern v
