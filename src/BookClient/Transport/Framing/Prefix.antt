-- ===== src/BookClient/Transport/Framing/Prefix.antt =====
-- PCom3/helpers.c: the first occurrence of a pattern in a response and in what has come of it.
use native.Mathlib.Decide.{dec_lt}
use pcom_assignments.Prelude.{
  ℕ, zero, suc, ◌+◌, ◌≤◌, ◌<◌, ◌≡◌, ap, arith, List, [], ◌∷◌, ◌++◌, Option, none, some, get_elem?,
  get_elem?_lt, lt_of_get_elem?, length,
}
use pcom_assignments.BookClient.Buffer.Find.{OccursAt, FirstAt}

elem_up : (ys zs : List ℕ) (n x : ℕ) → get_elem? ys n ≡ some x → get_elem? (ys ++ zs) n ≡ some x
elem_up [] zs n x at = absurd cc
elem_up (y ∷ ys) zs zero x at = at
elem_up (y ∷ ys) zs (suc n) x at = elem_up ys zs n x at

pub elem_down :
    (ys zs : List ℕ) (n x : ℕ)
    → n < length ys
    → get_elem? (ys ++ zs) n ≡ some x
    → get_elem? ys n ≡ some x
elem_down [] zs n x lt at = absurd (omega arith)
elem_down (y ∷ ys) zs zero x lt at = at
elem_down (y ∷ ys) zs (suc n) x lt at = elem_down ys zs n x (omega arith) at

module _ (f : ℕ → ℕ) (c : ℕ) (pattern ys zs : List ℕ) where
  occurs_up : (i : ℕ) → OccursAt f (c ∷ pattern) ys i → OccursAt f (c ∷ pattern) (ys ++ zs) i
  occurs_up i o j d e = let (x, at, same) = o j d e in (x, elem_up ys zs (i + j) x at, same)

  occurs_down :
      (i : ℕ)
      → i + length (c ∷ pattern) ≤ length ys
      → OccursAt f (c ∷ pattern) (ys ++ zs) i
      → OccursAt f (c ∷ pattern) ys i
  occurs_down i room o j d e =
      let (x, at, same) = o j d e in
      (
        x,
        elem_down ys zs (i + j) x (omega (arith, lt_of_get_elem? (c ∷ pattern) j e, room)) at,
        same,
      )

  occurs_fits : (i : ℕ) → OccursAt f (c ∷ pattern) ys i → i + length (c ∷ pattern) ≤ length ys
  occurs_fits i o =
      let (d, e) = get_elem?_lt (c ∷ pattern) (length pattern) (omega arith) in
      let (x, at, _) = o (length pattern) d e in
      omega (arith, lt_of_get_elem? ys (i + length pattern) at)

  -- The first occurrence in the whole is the first one in every beginning that contains it.
  pub first_prefix :
      (k : ℕ) (o : Option ℕ)
      → FirstAt f (c ∷ pattern) (ys ++ zs) (some k)
      → k + length (c ∷ pattern) ≤ length ys
      → FirstAt f (c ∷ pattern) ys o
      → o ≡ some k
  first_prefix k none whole room here = absurd (here k (occurs_down k room whole.0))
  first_prefix k (some i) whole room here = elim (dec_lt i k) [
    | yes lt ↦ absurd (whole.1 i lt (occurs_up i here.0))
    | no ge ↦ elim (dec_lt k i) [
      | yes lt ↦ absurd (here.1 k lt (occurs_down k room whole.0))
      | no le ↦ ap some (omega (arith, ge, le))
    ]
  ]

  -- A beginning in which the pattern occurs contains the first occurrence in the whole.
  pub first_inside :
      (k i : ℕ)
      → FirstAt f (c ∷ pattern) (ys ++ zs) (some k)
      → FirstAt f (c ∷ pattern) ys (some i)
      → k + length (c ∷ pattern) ≤ length ys
  first_inside k i whole here = elim (dec_lt i k) [
    | yes lt ↦ absurd (whole.1 i lt (occurs_up i here.0))
    | no ge ↦ omega (arith, ge, occurs_fits i here.0)
  ]
