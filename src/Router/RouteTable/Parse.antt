-- ===== src/Router/RouteTable/Parse.antt =====
-- PCom1/router.c: what the buckets hold after `parse_rtable` has read the lines of a file.
use mathlib.Core.List.{append-nil, append_assoc}
use mathlib.Core.Path.{subst}
use pcom_assignments.Prelude.{
  ℕ, zero, suc, ◌<◌, ◌≡◌, refl, sym, ap, ◌∙◌, arith, List, [], ◌∷◌, ◌++◌, Option, none, some, Bool,
  false, ◌==◌, if◌then◌else◌, length, length-set, get_elem?, set, replicate, get_elem?_lt,
  get_elem?-set_self, get_elem?-set_ne, ==_refl, ne→not_==,
}
use native.Mathlib.Decide.{ℕ_discrete}
use pcom_assignments.Prelude.Run.{Returns, returns, Returns->>=, Returns-mono}
use pcom_assignments.Router.GrowArray
use pcom_assignments.Router.GrowArray.{GrowArray}
use pcom_assignments.Router.GrowArray.Holds.{Holds, init-Holds, push-Holds}
use pcom_assignments.Router.Masks.{get_prefix_length}
use pcom_assignments.Router.Masks.Lengths.{get_prefix_length-IsPrefixLength}
use pcom_assignments.Router.RouteTable.{
  RtableEntry, Bucket, Rtable, init_rtable, add_route, add_routes, entry_compare, sort_buckets,
  parse_rtable,
}
use pcom_assignments.Router.RouteTable.Sorting.{Compare, IsQsort, sort_bucket-Holds}

-- 33 buckets, the `k`-th of which holds `f k`.
pub record Buckets (t : Rtable) (f : ℕ → List RtableEntry) : Type 0 where
  pub count : length t ≡ 33
  pub each : (k : ℕ) (b : Bucket) → get_elem? t k ≡ some b → Holds b (f k)

abbrev pub has_length : ℕ → Option ℕ → Bool
has_length k none = false
has_length k (some p) = p == k

-- The entry alone, if it goes to bucket `k`.
abbrev pub only : ℕ → RtableEntry → List RtableEntry
only k e = if has_length k (get_prefix_length e.mask) then e ∷ [] else []

-- The entries with prefix length `k`, in the order of the file.
abbrev pub with_length : ℕ → List RtableEntry → List RtableEntry
with_length k [] = []
with_length k (e ∷ es) = only k e ++ with_length k es

init-each : (n k : ℕ) (b : Bucket) → get_elem? (replicate n GrowArray.init) k ≡ some b → Holds b []
init-each zero k b e = cc
init-each (suc n) zero b e = subst (λ (a : Bucket). Holds a []) (ground (arith, e)) init-Holds
init-each (suc n) (suc k) b e = init-each n k b e

pub init_rtable-Buckets : Buckets init_rtable (λ k. [])
unfolding init_rtable
init_rtable-Buckets = record { count = refl; each = init-each 33 }

-- A write of bucket `p` is read there and nowhere else.
stored_each :
    (t : Rtable) (f : ℕ → List RtableEntry) (e : RtableEntry) (p : ℕ) (a : Bucket)
    → Buckets t f
    → p < length t
    → Holds a (f p ++ e ∷ [])
    → (k : ℕ) (c : Bucket) → get_elem? (set t p a) k ≡ some c
    → Holds c (f k ++ (if p == k then e ∷ [] else []))
stored_each t f e p a v inside h k c at_k = elim (ℕ_discrete p k) [
  | yes same ↦
      let new : some a ≡ some c =
        sym (get_elem?-set_self t p a inside) ∙ ap (get_elem? (set t p a)) same ∙ at_k in
      subst (λ (n : ℕ). Holds c (f n ++ (if p == n then e ∷ [] else []))) same
        (rw (==_refl p) (subst (λ (b : Bucket). Holds b (f p ++ e ∷ [])) (ground arith) h))
  | no other ↦
      rw (ne→not_== p k other, append-nil (f k))
        (v.each k c (sym (get_elem?-set_ne t a other) ∙ at_k))
]

pub add_route-Buckets :
    (t : Rtable) (f : ℕ → List RtableEntry) (e : RtableEntry)
    → Buckets t f
    → Returns (λ t'. Buckets t' (λ k. f k ++ only k e)) (add_route t e)
unfolding add_route
add_route-Buckets t f e v =
    let (p, found, fits) = get_prefix_length-IsPrefixLength e.mask in
    let (b, at_p) = get_elem?_lt t p (omega (arith, v.count)) in
    rw (found, at_p)
      (Returns->>= (push-Holds e (v.each p b at_p)) λ a h. returns (record {
        count = length-set t p a ∙ v.count;
        each = stored_each t f e p a v (omega (arith, v.count)) h;
      }))

-- Reading the lines adds each entry to the bucket of its prefix length.
pub add_routes-Buckets :
    (t : Rtable) (f : ℕ → List RtableEntry) (es : List RtableEntry)
    → Buckets t f
    → Returns (λ t'. Buckets t' (λ k. f k ++ with_length k es)) (add_routes t es)
unfolding add_routes
add_routes-Buckets t f [] v =
    returns (record { count = v.count; each = λ k b e. rw (append-nil (f k)) (v.each k b e) })
add_routes-Buckets t f (e ∷ es) v = Returns->>= (add_route-Buckets t f e v) λ t' v'.
    Returns-mono (add_routes-Buckets t' _ es v') λ t'' v''. record {
      count = v''.count;
      each = λ k b at. rw (← append_assoc) (v''.each k b at);
    }

module _ {qsort : Compare → List RtableEntry → List RtableEntry} (is : IsQsort qsort) where
  sort_buckets-each :
      (bs : Rtable) (f : ℕ → List RtableEntry)
      → ((k : ℕ) (b : Bucket) → get_elem? bs k ≡ some b → Holds b (f k))
      → Returns
          (λ bs'.
            (length bs' ≡ length bs)
            × ((k : ℕ) (b : Bucket)
                → get_elem? bs' k ≡ some b
                → Holds b (qsort entry_compare (f k))))
          (sort_buckets qsort bs)
  unfolding sort_buckets
  sort_buckets-each [] f h = returns (refl, λ k b e. cc)
  sort_buckets-each (b ∷ bs) f h = Returns->>= (sort_bucket-Holds is (h 0 b refl)) λ b' hb.
      Returns->>= (sort_buckets-each bs (λ k. f (suc k)) (λ k. h (suc k)))
        λ bs' v. returns (ap suc v.0, sorted_cons b' bs' hb v.1)
    where
      sorted_cons :
          (b' : Bucket) (bs' : Rtable)
          → Holds b' (qsort entry_compare (f 0))
          → ((k : ℕ) (c : Bucket)
              → get_elem? bs' k ≡ some c
              → Holds c (qsort entry_compare (f (suc k))))
          → (k : ℕ) (c : Bucket) → get_elem? (b' ∷ bs') k ≡ some c
          → Holds c (qsort entry_compare (f k))
      sorted_cons b' bs' hb v zero c e =
          subst (λ (a : Bucket). Holds a (qsort entry_compare (f 0))) (ground (arith, e)) hb
      sorted_cons b' bs' hb v (suc k) c e = v k c e

  -- A table file with at least one line is read without a fault, and then each of the 33 buckets
  -- holds what `qsort` makes of the entries with its prefix length.
  pub parse_rtable-Buckets :
      (l : RtableEntry) (lines : List RtableEntry)
      → Returns
          (λ t. Buckets t (λ k. qsort entry_compare (with_length k (l ∷ lines))))
          (parse_rtable qsort init_rtable (l ∷ lines))
  unfolding parse_rtable
  parse_rtable-Buckets l lines =
      Returns->>= (add_routes-Buckets init_rtable (λ k. []) (l ∷ lines) init_rtable-Buckets) λ t v.
        Returns-mono (sort_buckets-each t (λ k. with_length k (l ∷ lines)) v.each)
          λ t' v'. record { count = v'.0 ∙ v.count; each = v'.1 }
