-- ===== src/Router/RouteTable/Lookup.antt =====
-- PCom1/router.c: `get_best_route` against the longest match among the lines of the table file.
use Prim.Native.Nat.{bit_and}
use mathlib.Core.List.{
  Mem, mem-append_left, mem-append_right, not-mem-nil, mem-cons, mem-cons_self, mem-cons_of_mem,
  Mem-prop,
}
use mathlib.Core.List.Perm
use mathlib.Core.Logic.Or
use mathlib.Core.Path.{subst}
use native.Mathlib.Decide.{ℕ_discrete}
use pcom_assignments.Prelude.{
  ℕ, zero, suc, ◌+◌, ◌≤◌, ◌<◌, ◌^◌, ◌≡◌, refl, sym, ◌∙◌, ◌≢◌, ◌↔◌, arith, List, [], ◌∷◌, Option,
  none, some, true, get_elem?_lt, Bool-cases, inl, inr,
}
use pcom_assignments.Prelude.Run.{done, Returns, returns, Returns->>=, Returns-mono}
use pcom_assignments.Router.Masks.{get_prefix_length, get_subnet_mask}
use pcom_assignments.Router.RouteTable.{
  RtableEntry, Rtable, init_rtable, entry_compare, parse_rtable, best_route_below, get_best_route,
}
use pcom_assignments.Router.RouteTable.Search.{IsAscending, Finds, search_bucket-Finds}
use pcom_assignments.Router.RouteTable.Sorting.{
  Compare, IsQsort, IsClose, Mem-qsort, qsort-IsAscending,
}
use pcom_assignments.Router.RouteTable.Parse.{
  Buckets, has_length, only, with_length, parse_rtable-Buckets,
}

-- Entry `e` has the prefix length `k` and its prefix is the network of `dest` for that length.
pub record Matches (dest : ℕ) (e : RtableEntry) (k : ℕ) : Type 0 where
  pub has : get_prefix_length e.mask ≡ some k
  pub network : e.prefix ≡ bit_and dest (get_subnet_mask k)

-- Among the lines, the entry matches and no line matches with a longer prefix below `n`; NULL
-- stands for no match at all.
abbrev pub LongestBelow : ℕ → List RtableEntry → ℕ → Option RtableEntry → Type 0
LongestBelow n lines dest none =
    (e : RtableEntry) (k : ℕ) → Mem e lines → k < n → ¬ Matches dest e k
LongestBelow n lines dest (some e) =
    (k : ℕ) × (k < n)
    × Mem e lines
    × Matches dest e k
    × ((e' : RtableEntry) (k' : ℕ) → Mem e' lines → k' < n → Matches dest e' k' → k' ≤ k)

-- A prefix has at most 32 bits.
abbrev pub LongestMatch : List RtableEntry → ℕ → Option RtableEntry → Type 0
LongestMatch = LongestBelow 33

-- Entries of one prefix length have prefixes less than 2 ^ 31 apart.
abbrev pub HasClosePrefixes : List RtableEntry → Type 0
HasClosePrefixes lines =
    (x y : RtableEntry)
    → Mem x lines
    → Mem y lines
    → get_prefix_length x.mask ≡ get_prefix_length y.mask
    → (x.prefix < 2 ^ 32) × (x.prefix < y.prefix + 2 ^ 31)

has_length_iff : (k : ℕ) (o : Option ℕ) → (has_length k o ≡ true) ↔ (o ≡ some k)
has_length_iff k none = ((λ e. cc), (λ e. cc))
has_length_iff k (some p) = ((λ e. ground (arith, e)), (λ e. ground (arith, e)))

fits_prop :
    (e : RtableEntry) (lines : List RtableEntry) (k : ℕ)
    → IsProp (Mem e lines × (get_prefix_length e.mask ≡ some k))
fits_prop e lines k = hlevel (Mem-prop, ℕ_discrete)

with_length_sound :
    (k : ℕ) (lines : List RtableEntry) (e : RtableEntry)
    → Mem e (with_length k lines)
    → Mem e lines × (get_prefix_length e.mask ≡ some k)
with_length_sound k [] e m = absurd (not-mem-nil m)
with_length_sound k (l ∷ lines) e m = elim (Bool-cases (has_length k (get_prefix_length l.mask))) [
  | inl fits ↦
      let m' : Mem e (l ∷ with_length k lines) = rw fits at m in
      Or.elim (fits_prop e (l ∷ lines) k) (mem-cons.0 m')
        (λ same. rw same (mem-cons_self, (has_length_iff k _).0 fits))
        (λ rest. later (with_length_sound k lines e rest))
  | inr other ↦
      let m' : Mem e (with_length k lines) = rw other at m in later (with_length_sound k lines e m')
]
  where
    later :
        Mem e lines × (get_prefix_length e.mask ≡ some k)
        → Mem e (l ∷ lines) × (get_prefix_length e.mask ≡ some k)
    later h = (mem-cons_of_mem l h.0, h.1)

with_length_complete :
    (k : ℕ) (lines : List RtableEntry) (e : RtableEntry)
    → Mem e lines
    → get_prefix_length e.mask ≡ some k
    → Mem e (with_length k lines)
with_length_complete k [] e m h = absurd (not-mem-nil m)
with_length_complete k (l ∷ lines) e m h =
    Or.elim Mem-prop (mem-cons.0 m)
      (λ same.
        mem-append_left {s = only k l} _ (rw (← same, (has_length_iff k _).1 h) mem-cons_self))
      (λ rest. mem-append_right _ (with_length_complete k lines e rest h))

Finds-none :
    (es : List RtableEntry) (m : ℕ) → Finds es m none → (e : RtableEntry) → Mem e es → e.prefix ≢ m
Finds-none [] m f e here = absurd (not-mem-nil here)
Finds-none (x ∷ es) m f e here =
    Or.elim ne_prop (mem-cons.0 here) (λ same. rw same (f 0 x refl))
      (λ rest. Finds-none es m (λ i y at. f (suc i) y at) e rest)
  where
    ne_prop : IsProp (e.prefix ≢ m)
    ne_prop = hlevel

module _ {qsort : Compare → List RtableEntry → List RtableEntry} (is : IsQsort qsort)
    (lines : List RtableEntry) (close : HasClosePrefixes lines) where
  bucket-IsClose : (k : ℕ) → IsClose (with_length k lines)
  bucket-IsClose k x y mx my =
      let (x_in, x_has) = with_length_sound k lines x mx in
      let (y_in, y_has) = with_length_sound k lines y my in close x y x_in y_in (x_has ∙ sym y_has)

  bucket_sorted : (k : ℕ) → IsAscending (qsort entry_compare (with_length k lines))
  bucket_sorted k = qsort-IsAscending is (with_length k lines) (bucket-IsClose k)

  -- The answer of one bucket, in terms of the lines.
  hit_Matches :
      (k dest : ℕ) (e : RtableEntry)
      → Finds
          (qsort entry_compare (with_length k lines))
          (bit_and dest (get_subnet_mask k))
          (some e)
      → Mem e lines × Matches dest e k
  hit_Matches k dest e (i, at_i, eq) =
      let (e_in, e_has) =
        with_length_sound k lines e (Mem-qsort is (with_length k lines) i e at_i) in
      (e_in, record { has = e_has; network = eq })

  miss_Matches :
      (k dest : ℕ)
      → Finds (qsort entry_compare (with_length k lines)) (bit_and dest (get_subnet_mask k)) none
      → (e : RtableEntry) → Mem e lines
      → ¬ Matches dest e k
  miss_Matches k dest none_there e m h =
      Finds-none _ _ none_there e
        ((Perm.mem_iff (is.permutes entry_compare (with_length k lines))).1
          (with_length_complete k lines e m h.has))
        h.network

  extend :
      (i dest : ℕ) (r : Option RtableEntry)
      → ((e : RtableEntry) → Mem e lines → ¬ Matches dest e i)
      → LongestBelow i lines dest r
      → LongestBelow (suc i) lines dest r
  extend i dest none miss l = λ e k m lt h. elim (ℕ_discrete k i) [
    | yes same ↦ miss e m (subst (Matches dest e) same h)
    | no other ↦ l e k m (omega arith) h
  ]
  extend i dest (some e) miss (k, lt, m, h, most) = (
    k,
    omega arith,
    m,
    h,
    λ e' k' m' lt' h'. elim (ℕ_discrete k' i) [
      | yes same ↦ absurd (miss e' m' (subst (Matches dest e') same h'))
      | no other ↦ most e' k' m' (omega arith) h'
    ],
  )

  take_hit :
      (i dest : ℕ) (e : RtableEntry)
      → Mem e lines × Matches dest e i
      → LongestBelow (suc i) lines dest (some e)
  take_hit i dest e h = (i, omega arith, h.0, h.1, λ e' k' m' lt' h'. omega arith)

  best_lem :
      (n : ℕ) (t : Rtable) (dest : ℕ)
      → Buckets t (λ k. qsort entry_compare (with_length k lines))
      → n ≤ 33
      → Returns (LongestBelow n lines dest) (best_route_below n t dest)
  unfolding best_route_below
  best_lem zero t dest v le = returns (λ e k m lt. absurd (omega arith))
  best_lem (suc i) t dest v le =
      let (b, at_i) = get_elem?_lt t i (omega (arith, v.count)) in
      rw at_i (
        Returns->>=
          (search_bucket-Finds b _ (bit_and dest (get_subnet_mask i)) (bucket_sorted i)
            (v.each i b at_i))
          (answer (best_lem i t dest v (omega arith))))
    where
      answer :
          Returns (LongestBelow i lines dest) (best_route_below i t dest)
          → (r : Option RtableEntry)
          → Finds (qsort entry_compare (with_length i lines)) (bit_and dest (get_subnet_mask i)) r
          → Returns
              (LongestBelow (suc i) lines dest)
              (elim r [ none ↦ best_route_below i t dest | some e ↦ done (some e) ])
      answer rest none f = Returns-mono rest (λ r. extend i dest r (miss_Matches i dest f))
      answer rest (some e) f = returns (take_hit i dest e (hit_Matches i dest e f))

-- For a table file of which no two entries of one prefix length have prefixes 2 ^ 31 or more
-- apart, reading the file and looking up any address end without a fault, and the look-up
-- returns a line that matches the address with the greatest prefix length among the lines that
-- match it, or NULL exactly if no line matches.
pub get_best_route-LongestMatch :
    {qsort : Compare → List RtableEntry → List RtableEntry} (is : IsQsort qsort)
    (lines : List RtableEntry)
    → HasClosePrefixes lines
    → lines ≢ []
    → Returns
        (λ t. (dest : ℕ) → Returns (LongestMatch lines dest) (get_best_route t dest))
        (parse_rtable qsort init_rtable lines)
unfolding get_best_route
get_best_route-LongestMatch is [] close ne = absurd (ne refl)
get_best_route-LongestMatch is (l ∷ lines) close ne =
    Returns-mono (parse_rtable-Buckets is l lines)
      λ t v dest. best_lem is (l ∷ lines) close 33 t dest v (omega arith)
