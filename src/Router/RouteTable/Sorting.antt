-- ===== src/Router/RouteTable/Sorting.antt =====
-- PCom1/router.c: `entry_compare` and the sorting of the buckets.
use mathlib.Core.List.{Mem, Perm, mem-cons_self, mem-cons_of_mem}
use mathlib.Core.List.Perm
use mathlib.Core.Path.{subst}
use pcom_assignments.Prelude.{
  ℕ, zero, suc, ◌+◌, ◌^◌, ◌≤◌, ◌<◌, ◌≡◌, refl, sym, ap, ◌∙◌, ◌≢◌, ◌↔◌, ◌⊎◌, arith, List, [], ◌∷◌,
  ◌++◌, map, Option, some, length, get_elem?, take, drop, ne→not_==, inl, inr,
}
use native.Mathlib.Decide.{dec_le, dec_lt}
use pcom_assignments.Prelude.Int.{ℤ, pos, ◌≤ℤ◌}
use pcom_assignments.Prelude.Run.{done, Returns, returns}
use pcom_assignments.Router.GrowArray.Holds.{Holds}
use pcom_assignments.Router.RouteTable.{RtableEntry, Bucket, entry_compare, all_some, sort_bucket}
use pcom_assignments.Router.RouteTable.Search.{IsAscending}

abbrev pub Compare : Type 0
Compare = RtableEntry → RtableEntry → ℤ

-- What the C standard asks of a comparison function on the sorted elements: a total order.
pub record IsConsistent (cmp : Compare) (es : List RtableEntry) : Type 0 where
  pub total : (x y : RtableEntry) → Mem x es → Mem y es → (cmp x y ≤ℤ pos 0) ⊎ (cmp y x ≤ℤ pos 0)
  pub transitive :
      (x y z : RtableEntry)
      → Mem x es
      → Mem y es
      → Mem z es
      → cmp x y ≤ℤ pos 0
      → cmp y z ≤ℤ pos 0
      → cmp x z ≤ℤ pos 0

abbrev pub Sorted : Compare → List RtableEntry → Type 0
Sorted cmp es =
    (i j : ℕ) (x y : RtableEntry)
    → i < j
    → get_elem? es i ≡ some x
    → get_elem? es j ≡ some y
    → cmp x y ≤ℤ pos 0

-- The documented behaviour of `qsort`: it permutes the elements, and orders them if the comparison
-- function is a total order on them.
pub record IsQsort (qsort : Compare → List RtableEntry → List RtableEntry) : Type 0 where
  pub permutes : (cmp : Compare) (es : List RtableEntry) → Perm (qsort cmp es) es
  pub same_length : (cmp : Compare) (es : List RtableEntry) → length (qsort cmp es) ≡ length es
  pub orders :
      (cmp : Compare) (es : List RtableEntry) → IsConsistent cmp es → Sorted cmp (qsort cmp es)

-- The comparison is that of the prefixes as unsigned words exactly while their distance is below
-- 2 ^ 31; farther apart the difference wraps and its sign is the opposite one.
pub entry_compare-le :
    (x y : RtableEntry)
    → x.prefix < 2 ^ 32
    → y.prefix < 2 ^ 32
    → (entry_compare x y ≤ℤ pos 0) ↔ (
        ((x.prefix ≤ y.prefix) × (y.prefix ≤ x.prefix + (2 ^ 31))) ⊎ (y.prefix + 2 ^ 31 ≤ x.prefix))
unfolding entry_compare
entry_compare-le x y hx hy = ground arith

-- What makes the comparison an order on a bucket: words of 32 bits, less than 2 ^ 31 apart.
abbrev pub IsClose : List RtableEntry → Type 0
IsClose es =
    (x y : RtableEntry) → Mem x es → Mem y es → (x.prefix < 2 ^ 32) × (x.prefix < y.prefix + 2 ^ 31)

close_compare :
    (x y : RtableEntry)
    → x.prefix < 2 ^ 32
    → y.prefix < 2 ^ 32
    → x.prefix < y.prefix + 2 ^ 31
    → y.prefix < x.prefix + 2 ^ 31
    → (entry_compare x y ≤ℤ pos 0) ↔ (x.prefix ≤ y.prefix)
close_compare x y hx hy near near' = (
  (λ c. ground (arith, (entry_compare-le x y hx hy).0 c)),
  (λ c. (entry_compare-le x y hx hy).1 (omega arith)),
)

module _ (es : List RtableEntry) (close : IsClose es) where
  compare_iff :
      (x y : RtableEntry)
      → Mem x es
      → Mem y es
      → (entry_compare x y ≤ℤ pos 0) ↔ (x.prefix ≤ y.prefix)
  compare_iff x y hx hy =
      close_compare x y (close x x hx hx).0 (close y y hy hy).0 (close x y hx hy).1
        (close y x hy hx).1

  close-IsConsistent : IsConsistent entry_compare es
  close-IsConsistent = record {
    total = λ x y hx hy. elim (dec_le x.prefix y.prefix) [
      | yes le ↦ inl ((compare_iff x y hx hy).1 le)
      | no nle ↦ inr ((compare_iff y x hy hx).1 (omega arith))
    ];
    transitive = λ x y z hx hy hz p q.
        (compare_iff x z hx hz).1
          (omega (arith, (compare_iff x y hx hy).0 p, (compare_iff y z hy hz).0 q));
  }

pub Mem-get_elem? :
    (es : List RtableEntry) (i : ℕ) {x : RtableEntry} → get_elem? es i ≡ some x → Mem x es
Mem-get_elem? [] i e = cc
Mem-get_elem? (y ∷ es) zero {x} e =
    subst (λ (z : RtableEntry). Mem z (y ∷ es)) (ground (arith, e)) mem-cons_self
Mem-get_elem? (y ∷ es) (suc i) e = mem-cons_of_mem _ (Mem-get_elem? es i e)

all_some-map : (es : List RtableEntry) → all_some (map some es) ≡ some es
unfolding all_some
all_some-map [] = refl
all_some-map (e ∷ es) = rw (all_some-map es)

take-layout :
    (es : List RtableEntry) (rest : List (Option RtableEntry))
    → take (length es) (map some es ++ rest) ≡ map some es
take-layout [] rest = refl
take-layout (e ∷ es) rest = rw (take-layout es rest)

drop-layout :
    (es : List RtableEntry) (rest : List (Option RtableEntry))
    → drop (length es) (map some es ++ rest) ≡ rest
drop-layout [] rest = refl
drop-layout (e ∷ es) rest = drop-layout es rest

module _ {qsort : Compare → List RtableEntry → List RtableEntry} (is : IsQsort qsort) where
  pub Mem-qsort :
      (es : List RtableEntry) (i : ℕ) (x : RtableEntry)
      → get_elem? (qsort entry_compare es) i ≡ some x
      → Mem x es
  Mem-qsort es i x e = (Perm.mem_iff (is.permutes entry_compare es)).0 (Mem-get_elem? _ i e)

  pub qsort-IsAscending :
      (es : List RtableEntry) → IsClose es → IsAscending (qsort entry_compare es)
  qsort-IsAscending es close i j x y le ex ey = elim (dec_lt i j) [
    | yes lt ↦
        (compare_iff es close x y (Mem-qsort es i x ex) (Mem-qsort es j y ey)).0
          (is.orders entry_compare es (close-IsConsistent es close) i j x y lt ex ey)
    | no nlt ↦
        let same : i ≡ j = omega arith in
        let one : some x ≡ some y = sym ex ∙ ap (get_elem? (qsort entry_compare es)) same ∙ ey in
        ground arith
  ]

  qsort-nil : qsort entry_compare [] ≡ []
  qsort-nil = none_left (qsort entry_compare []) (is.same_length entry_compare [])
    where
      none_left : (es : List RtableEntry) → length es ≡ 0 → es ≡ []
      none_left [] h = refl
      none_left (e ∷ es) h = absurd (omega arith)

  unsorted_cells : (b : Bucket) → b.size ≡ 0 → sort_bucket qsort b ≡ done b
  unfolding sort_bucket
  unsorted_cells b e = simp e

  sorted_cells :
      (b : Bucket) (es : List RtableEntry)
      → Holds b es
      → b.size ≢ 0
      → sort_bucket qsort b
        ≡ done (record b { entries = map some (qsort entry_compare es) ++ drop b.size b.entries })
  unfolding sort_bucket
  sorted_cells b es h used =
      rw (ne→not_== b.size 0 used) (simp (h.counted, h.layout, take-layout, all_some-map))

  -- Sorting a bucket leaves in it what `qsort` makes of its entries.
  pub sort_bucket-Holds :
      {b : Bucket} {es : List RtableEntry}
      → Holds b es
      → Returns (λ b'. Holds b' (qsort entry_compare es)) (sort_bucket qsort b)
  sort_bucket-Holds {b} {es = []} h = rw (unsorted_cells b h.counted) (returns (rw qsort-nil h))
  sort_bucket-Holds {b} {es = e ∷ es} h =
      rw (sorted_cells b (e ∷ es) h (omega (arith, h.counted))) (
        returns (record {
          slack = h.slack;
          layout = simp (h.counted, h.layout, drop-layout (e ∷ es));
          spare = h.spare;
          counted = omega (arith, h.counted, is.same_length entry_compare (e ∷ es));
          allocated = omega (arith, h.allocated, is.same_length entry_compare (e ∷ es));
        }))
