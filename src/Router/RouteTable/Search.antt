-- ===== src/Router/RouteTable/Search.antt =====
-- PCom1/router.c: the binary search of `get_best_route` in one bucket.
use pcom_assignments.Prelude.{
  ℕ, zero, suc, ◌+◌, ◌-◌, ◌/◌, ◌≤◌, ◌<◌, ◌≡◌, ◌≢◌, arith, List, Option, none, some, ltb,
  if◌then◌else◌, length, get_elem?, get_elem?_lt, lt_of_get_elem?, Bool-cases, le→leb, lt→not_leb,
  ne→not_==, inl, inr,
}
use native.Mathlib.Decide.{dec_lt, ℕ_discrete}
use pcom_assignments.Prelude.Int.{pos, sub_ℕ}
use pcom_assignments.Prelude.Run.{done, Returns, returns}
use pcom_assignments.Router.GrowArray.Holds.{Holds, read-Holds}
use pcom_assignments.Router.RouteTable.{RtableEntry, Bucket, search_loop, search_bucket}

-- The prefixes do not fall along the list.
abbrev pub IsAscending : List RtableEntry → Type 0
IsAscending es =
    (i j : ℕ) (x y : RtableEntry)
    → i ≤ j
    → get_elem? es i ≡ some x
    → get_elem? es j ≡ some y
    → x.prefix ≤ y.prefix

-- An entry of the list with the prefix `m`, or NULL if the list has none.
abbrev pub Finds : List RtableEntry → ℕ → Option RtableEntry → Type 0
Finds es m none = (i : ℕ) (x : RtableEntry) → get_elem? es i ≡ some x → x.prefix ≢ m
Finds es m (some e) = (i : ℕ) × (get_elem? es i ≡ some e) × (e.prefix ≡ m)

module _ (b : Bucket) (es : List RtableEntry) (m : ℕ) (sorted : IsAscending es)
    (h : Holds b es) where
  -- `hi` is one more than the right bound: the entries outside left..hi are below or above `m`.
  record Bounds (left hi : ℕ) : Type 0 where
    inside : hi ≤ length es
    below : (i : ℕ) (x : RtableEntry) → i < left → get_elem? es i ≡ some x → x.prefix < m
    above : (i : ℕ) (x : RtableEntry) → hi ≤ i → get_elem? es i ≡ some x → m < x.prefix

  empty-Finds : {left hi : ℕ} → Bounds left hi → hi ≤ left → Finds es m none
  empty-Finds {left} {hi} v out i x e = ground (arith, v.below i x, v.above i x)

  narrow :
      (left right : ℕ) (x : RtableEntry)
      → Bounds left (suc right)
      → left ≤ right
      → get_elem? es ((left + right) / 2) ≡ some x
      → x.prefix ≢ m
      → Bounds
          (if ltb x.prefix m then (left + right) / 2 + 1 else left)
          (if ltb m x.prefix then (left + right) / 2 else suc right)
  narrow left right x v ord at_mid ne = record {
    inside = ground (arith, v.inside);
    below = λ i y lt e. ground (arith, v.below i y, sorted i ((left + right) / 2) y x);
    above = λ i y le e. ground (arith, v.above i y, sorted ((left + right) / 2) i x y);
  }

  right_bound : (right : ℕ) → sub_ℕ (suc right) 1 ≡ pos right
  right_bound right = ground arith

  -- The loop with the entry that it reads.
  search_step :
      (fuel left right : ℕ) (x : RtableEntry)
      → left ≤ right
      → get_elem? es ((left + right) / 2) ≡ some x
      → x.prefix ≢ m
      → search_loop (suc fuel) b m left (pos right)
        ≡ search_loop fuel b m
            (if ltb x.prefix m then (left + right) / 2 + 1 else left)
            (sub_ℕ (if ltb m x.prefix then (left + right) / 2 else suc right) 1)
  unfolding search_loop
  search_step fuel left right x ord at_mid ne =
      rw (read-Holds h _ at_mid, le→leb left right ord)
        (elim (Bool-cases (ltb m x.prefix)) [
          | inl lt ↦ rw lt (ground arith)
          | inr ge ↦ rw (ge, right_bound right) (ground arith)
        ])

  search_hit :
      (fuel left right : ℕ) (x : RtableEntry)
      → left ≤ right
      → get_elem? es ((left + right) / 2) ≡ some x
      → x.prefix ≡ m
      → search_loop (suc fuel) b m left (pos right) ≡ done (some x)
  unfolding search_loop
  search_hit fuel left right x ord at_mid eq =
      rw (read-Holds h _ at_mid, le→leb left right ord) (ground arith)

  search_lem :
      (fuel left hi : ℕ)
      → hi - left < fuel
      → Bounds left hi
      → Returns (Finds es m) (search_loop fuel b m left (sub_ℕ hi 1))
  search_lem zero left hi room v = absurd (omega arith)
  search_lem (suc fuel) left zero room v =
      unfold search_loop in returns (empty-Finds v (omega arith))
  search_lem (suc fuel) left (suc right) room v = rw (right_bound right) (elim (dec_lt right left) [
    | yes crossed ↦
        unfold search_loop in
        rw (lt→not_leb right left crossed) (returns (empty-Finds v (omega arith)))
    | no ordered ↦
        let (x, at_mid) = get_elem?_lt es ((left + right) / 2) (omega (arith, v.inside)) in
        elim (ℕ_discrete x.prefix m) [
          | yes eq ↦
              rw (search_hit fuel left right x (omega arith) at_mid eq)
                (returns ((left + right) / 2, at_mid, eq))
          | no ne ↦
              rw (search_step fuel left right x (omega arith) at_mid ne)
                (search_lem fuel _ _ (ground arith) (narrow left right x v (omega arith) at_mid ne))
        ]
  ])

  -- On a bucket that holds a list in ascending order the search ends within its fuel, reads no
  -- cell out of use, and returns an entry with the prefix `m` exactly if there is one.
  pub search_bucket-Finds : Returns (Finds es m) (search_bucket b m)
  unfolding search_bucket
  search_bucket-Finds = elim (ℕ_discrete b.size 0) [
    | yes none_used ↦
        simp none_used (returns λ i x e. absurd (omega (arith, lt_of_get_elem? es i e, h.counted)))
    | no used ↦ rw (ne→not_== b.size 0 used) (
        simp h.counted (
          search_lem (length es + 1) 0 (length es) (omega arith) (record {
            inside = omega arith;
            below = λ i x lt e. absurd (omega arith);
            above = λ i x le e. absurd (omega (arith, lt_of_get_elem? es i e));
          })))
  ]
