-- ===== src/Router/GrowArray/Holds.antt =====
-- PCom1/router.c: the growing array as the list of what was added to it.
use pcom_assignments.Prelude.{
  ℕ, ◌+◌, ◌<◌, ◌≡◌, refl, arith, List, [], ◌∷◌, ◌++◌, map, Option, none, some, ltb, length,
  get_elem?, set, replicate, length-append, length-map, length-replicate, set-append,
  get_elem?-append, lt→ltb, true,
}
use mathlib.Core.List.{append-nil}
use pcom_assignments.Prelude.Run.{done, Returns, returns}
use pcom_assignments.Router.GrowArray.{GrowArray, init, read, grow, push}

-- The cells in use hold `xs` in order, and at least one cell is spare.
pub record Holds {A : Type 0} (a : GrowArray A) (xs : List A) : Type 0 where
  pub slack : List (Option A)
  pub layout : a.entries ≡ map some xs ++ slack
  pub spare : 0 < length slack
  pub counted : a.size ≡ length xs
  pub allocated : a.capacity ≡ length xs + length slack

module _ {A : Type 0} where
  pub init-Holds : Holds (init {A = A}) []
  unfolding init
  init-Holds = record {
    slack = none ∷ [];
    layout = refl;
    spare = omega arith;
    counted = refl;
    allocated = omega arith;
  }

  pub read-Holds :
      {a : GrowArray A} {xs : List A} (h : Holds a xs) (i : ℕ) {x : A}
      → get_elem? xs i ≡ some x
      → read a i ≡ done x
  unfolding read
  read-Holds {a} {xs} h i e = rw (h.layout, get_elem?-append xs h.slack i e)

  length-layout :
      (xs : List A) (ys : List (Option A)) → length (map some xs ++ ys) ≡ length xs + length ys
  length-layout xs ys =
      omega (arith, length-append (map some xs) ys, length-map xs (λ (x : A). some x))

  grow-Holds :
      (a : GrowArray A) (xs : List A) (slack : List (Option A))
      → a.entries ≡ map some xs ++ slack
      → a.size ≡ length xs
      → a.capacity ≡ length xs + length slack
      → 0 < a.capacity
      → Holds (grow a) xs
  unfolding grow
  grow-Holds a xs [] l s c p = record {
    slack = replicate a.capacity none;
    layout = ground (arith, append-nil (map some xs), length-append (map some xs) [], l);
    spare = let unset : Option A = none in ground (arith, length-replicate a.capacity unset);
    counted = ground arith;
    allocated = let unset : Option A = none in ground (arith, length-replicate a.capacity unset);
  }
  grow-Holds a xs (y ∷ slack) l s c p = record {
    slack = y ∷ slack;
    layout = ground arith;
    spare = omega arith;
    counted = ground arith;
    allocated = ground arith;
  }

  -- `push` never writes out of the array and appends its entry.
  pub push-Holds :
      {a : GrowArray A} {xs : List A} (x : A)
      → Holds a xs
      → Returns (λ b. Holds b (xs ++ x ∷ [])) (push a x)
  unfolding push
  push-Holds {a} {xs} x h = written h.slack h.layout h.spare h.allocated
    where
      stored : GrowArray A
      stored = record a { entries = set a.entries a.size (some x); size = a.size + 1 }

      room : ltb a.size (length a.entries) ≡ true
      room = lt→ltb _ _ (rw (h.layout, length-layout xs h.slack) (omega arith))

      written :
          (slack : List (Option A))
          → a.entries ≡ map some xs ++ slack
          → 0 < length slack
          → a.capacity ≡ length xs + length slack
          → Returns (λ b. Holds b (xs ++ x ∷ [])) (push a x)
      written [] l p c = elim p [ ]
      written (y ∷ slack) l p c = rw room (
          returns (
            grow-Holds stored (xs ++ x ∷ []) slack (rw (l, h.counted) (set-append xs y slack x))
              (omega (arith, h.counted, length-append xs (x ∷ [])))
              (omega (arith, length-append xs (x ∷ []))) (omega arith)))
