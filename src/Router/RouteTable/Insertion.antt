-- ===== src/Router/RouteTable/Insertion.antt =====
-- PCom1/router.c: an insertion sort, which does what is documented of the `qsort` of the C library.
use mathlib.Core.List.{Mem, Perm, mem-cons, mem-cons_self, mem-cons_of_mem, not-mem-nil}
use mathlib.Core.List.Perm
use mathlib.Core.Logic.Or
use native.Mathlib.Bridge.{le_prop}
use pcom_assignments.Prelude.{
  zero, suc, ◌≡◌, refl, ap, ◌∙◌, arith, List, [], ◌∷◌, if◌then◌else◌, length, Bool-cases, inl, inr,
}
use pcom_assignments.Prelude.Int.{pos, ◌≤ℤ◌, leb_ℤ}
use pcom_assignments.Router.RouteTable.{RtableEntry}
use pcom_assignments.Router.RouteTable.Sorting.{
  Compare, IsConsistent, Sorted, IsQsort, Mem-get_elem?,
}

abbrev insert : Compare → RtableEntry → List RtableEntry → List RtableEntry
insert cmp x [] = x ∷ []
insert cmp x (y ∷ ys) =
    let rest = insert cmp x ys in if leb_ℤ (cmp x y) (pos 0) then x ∷ y ∷ ys else y ∷ rest

abbrev pub insertion_sort : Compare → List RtableEntry → List RtableEntry
insertion_sort cmp [] = []
insertion_sort cmp (x ∷ xs) = insert cmp x (insertion_sort cmp xs)

abbrev Ordered : Compare → List RtableEntry → Type 0
Ordered cmp [] = Unit {0}
Ordered cmp (x ∷ xs) = ((y : RtableEntry) → Mem y xs → cmp x y ≤ℤ pos 0) × Ordered cmp xs

module _ (cmp : Compare) where
  insert-Perm : (x : RtableEntry) (ys : List RtableEntry) → Perm (insert cmp x ys) (x ∷ ys)
  insert-Perm x [] = Perm.refl _
  insert-Perm x (y ∷ ys) = elim (Bool-cases (leb_ℤ (cmp x y) (pos 0))) [
    | inl first ↦ rw first (Perm.refl _)
    | inr later ↦ rw later (Perm.trans (Perm.cons y (insert-Perm x ys)) (Perm.swap x y ys))
  ]

  insertion_sort-Perm : (xs : List RtableEntry) → Perm (insertion_sort cmp xs) xs
  insertion_sort-Perm [] = Perm.refl _
  insertion_sort-Perm (x ∷ xs) =
      Perm.trans (insert-Perm x (insertion_sort cmp xs)) (Perm.cons x (insertion_sort-Perm xs))

  insert-length :
      (x : RtableEntry) (ys : List RtableEntry) → length (insert cmp x ys) ≡ suc (length ys)
  insert-length x [] = refl
  insert-length x (y ∷ ys) = elim (Bool-cases (leb_ℤ (cmp x y) (pos 0))) [
    | inl first ↦ rw first refl
    | inr later ↦ rw later (ap suc (insert-length x ys))
  ]

  insertion_sort-length : (xs : List RtableEntry) → length (insertion_sort cmp xs) ≡ length xs
  insertion_sort-length [] = refl
  insertion_sort-length (x ∷ xs) =
      insert-length x (insertion_sort cmp xs) ∙ ap suc (insertion_sort-length xs)

  module _ (es : List RtableEntry) (is : IsConsistent cmp es) where
    -- Every element that is inserted and every element it meets is one of `es`.
    insert-Ordered :
        (x : RtableEntry) (ys : List RtableEntry)
        → Mem x es
        → ((y : RtableEntry) → Mem y ys → Mem y es)
        → Ordered cmp ys
        → Ordered cmp (insert cmp x ys)
    insert-Ordered x [] mx within o = ((λ y m. absurd (not-mem-nil m)), tt)
    insert-Ordered x (y ∷ ys) mx within o = elim (Bool-cases (leb_ℤ (cmp x y) (pos 0))) [
      | inl first ↦
          let le : cmp x y ≤ℤ pos 0 = ground (arith, first) in
          rw first (
            (λ z m.
                Or.elim le_prop (mem-cons.0 m) (λ e. rw e le)
                  (λ rest.
                    is.transitive x y z mx (within y mem-cons_self) (within z m) le (o.0 z rest))),
            o,
          )
      | inr later ↦
          let ge : cmp y x ≤ℤ pos 0 = elim (is.total x y mx (within y mem-cons_self)) [
            | inl le ↦ absurd (ground (arith, le, later))
            | inr ge ↦ ge
          ] in
          rw later (
            (λ z m.
                Or.elim le_prop (mem-cons.0 ((Perm.mem_iff (insert-Perm x ys)).0 m)) (λ e. rw e ge)
                  (λ rest. o.0 z rest)),
            insert-Ordered x ys mx (λ z m. within z (mem-cons_of_mem y m)) o.1,
          )
    ]

    insertion_sort-Ordered :
        (xs : List RtableEntry)
        → ((y : RtableEntry) → Mem y xs → Mem y es)
        → Ordered cmp (insertion_sort cmp xs)
    insertion_sort-Ordered [] within = tt
    insertion_sort-Ordered (x ∷ xs) within =
        insert-Ordered x (insertion_sort cmp xs) (within x mem-cons_self)
          (λ y m. within y (mem-cons_of_mem x ((Perm.mem_iff (insertion_sort-Perm xs)).0 m)))
          (insertion_sort-Ordered xs (λ y m. within y (mem-cons_of_mem x m)))

  Ordered-Sorted : (es : List RtableEntry) → Ordered cmp es → Sorted cmp es
  Ordered-Sorted [] o i j x y lt ex ey = absurd (cc)
  Ordered-Sorted (e ∷ es) o zero zero x y lt ex ey = absurd (omega arith)
  Ordered-Sorted (e ∷ es) o (suc i) zero x y lt ex ey = absurd (omega arith)
  Ordered-Sorted (e ∷ es) o zero (suc j) x y lt ex ey =
      let same : e ≡ x = ground arith in rw (← same) (o.0 y (Mem-get_elem? es j ey))
  Ordered-Sorted (e ∷ es) o (suc i) (suc j) x y lt ex ey =
      Ordered-Sorted es o.1 i j x y (omega arith) ex ey

pub insertion_sort-IsQsort : IsQsort insertion_sort
insertion_sort-IsQsort = record {
  permutes = insertion_sort-Perm;
  same_length = insertion_sort-length;
  orders = λ cmp es is.
      Ordered-Sorted cmp (insertion_sort cmp es) (insertion_sort-Ordered cmp es is es (λ y m. m));
}
