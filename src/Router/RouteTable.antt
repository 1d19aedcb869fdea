-- ===== src/Router/RouteTable.antt =====
-- PCom1/router.c: the routing table, 33 buckets of entries by prefix length. The C library's
-- `qsort` is a parameter of what sorts; a line of the table file stands for the values that
-- `fscanf` and `inet_addr` read from it, addresses in network byte order.
pub mod Search
pub mod Sorting
pub mod Parse
pub mod Lookup
pub mod Insertion
use Prim.Native.Nat.{bit_and}
use pcom_assignments.Prelude.{
  ℕ, zero, suc, ◌+◌, ◌-◌, ◌/◌, ◌%◌, ◌^◌, List, [], ◌∷◌, ◌++◌, map, Option, none, some, ◌==◌, ltb,
  leb, if◌then◌else◌, get_elem?, set, take, drop, replicate,
}
use pcom_assignments.Prelude.Int.{ℤ, pos, negsuc, sub_ℕ, signed32}
use pcom_assignments.Prelude.Run.{
  Run, done, fault, out_of_bounds, uninitialised, out_of_fuel, ◌>>=◌, require,
}
use pcom_assignments.Router.GrowArray
use pcom_assignments.Router.GrowArray.{GrowArray}
use pcom_assignments.Router.Masks.{get_prefix_length, get_subnet_mask}

pub record RtableEntry : Type 0 where
  pub prefix : ℕ
  pub next_hop : ℕ
  pub mask : ℕ
  pub interface : ℕ

abbrev pub Bucket : Type 0
Bucket = GrowArray RtableEntry

abbrev pub Rtable : Type 0
Rtable = List Bucket

pub init_rtable : Rtable
init_rtable = replicate 33 GrowArray.init

-- `a->prefix - b->prefix` wraps as an unsigned word and is returned as an int.
pub entry_compare : RtableEntry → RtableEntry → ℤ
entry_compare a b = signed32 ((a.prefix + 2 ^ 32 - b.prefix) % 2 ^ 32)

-- One round of the loop that reads the file: the entry goes to the end of its bucket.
pub add_route : Rtable → RtableEntry → Run Rtable
add_route t entry = do
  idx ← require out_of_fuel (get_prefix_length entry.mask)
  bucket ← require out_of_bounds (get_elem? t idx)
  bucket' ← GrowArray.push bucket entry
  done (set t idx bucket')

pub add_routes : Rtable → List RtableEntry → Run Rtable
unfolding add_route
add_routes t [] = done t
add_routes t (e ∷ es) = do t' ← add_route t e; add_routes t' es

pub all_some : List (Option RtableEntry) → Option (List RtableEntry)
all_some [] = some []
all_some (none ∷ cs) = none
all_some (some e ∷ cs) = elim (all_some cs) [ none ↦ none | some es ↦ some (e ∷ es) ]

-- The loop of a binary search for `to_match`, with the bounds of the C ints.
unfoldable pub search_loop :
    (fuel : ℕ) → Bucket → (to_match left : ℕ) → (right : ℤ) → Run (Option RtableEntry)
search_loop zero b m left right = fault out_of_fuel
search_loop (suc fuel) b m left (negsuc n) = done none
search_loop (suc fuel) b m left (pos right) =
    if leb left right
    then (do
      entry ← GrowArray.read b ((left + right) / 2)
      let mid = (left + right) / 2
      let right' = if ltb m entry.prefix then sub_ℕ mid 1 else pos right
      let left' = if ltb entry.prefix m then mid + 1 else left
      let rest = search_loop fuel b m left' right'
      if m == entry.prefix then done (some entry) else rest)
    else done none

unfoldable pub search_bucket : Bucket → ℕ → Run (Option RtableEntry)
unfolding search_loop
search_bucket b m =
    if b.size == 0 then done none else search_loop (b.size + 1) b m 0 (sub_ℕ b.size 1)

-- The loop over the buckets `i - 1`, ..., 0.
unfoldable pub best_route_below : ℕ → Rtable → ℕ → Run (Option RtableEntry)
unfolding search_bucket
best_route_below zero t dest_ip = done none
best_route_below (suc i) t dest_ip = do
  bucket ← require out_of_bounds (get_elem? t i)
  found ← search_bucket bucket (bit_and dest_ip (get_subnet_mask i))
  elim found [ none ↦ best_route_below i t dest_ip | some e ↦ done (some e) ]

unfoldable pub get_best_route : Rtable → ℕ → Run (Option RtableEntry)
unfolding best_route_below
get_best_route t dest_ip = best_route_below 33 t dest_ip

module _ (qsort : (RtableEntry → RtableEntry → ℤ) → List RtableEntry → List RtableEntry) where
  -- `qsort(entries, size, ...)` permutes the cells in use.
  pub sort_bucket : Bucket → Run Bucket
  unfolding all_some
  sort_bucket b = if b.size == 0 then done b else (do
    es ← require uninitialised (all_some (take b.size b.entries))
    done (record b { entries = map some (qsort entry_compare es) ++ drop b.size b.entries }))

  pub sort_buckets : Rtable → Run Rtable
  unfolding sort_bucket
  sort_buckets [] = done []
  sort_buckets (b ∷ bs) = do b' ← sort_bucket b; bs' ← sort_buckets bs; done (b' ∷ bs')

  -- `lines` are the lines of the file, at least one: on an empty file the loop would run once with
  -- the buffers unset, before `feof` is true.
  pub parse_rtable : Rtable → List RtableEntry → Run Rtable
  unfolding add_routes sort_buckets
  parse_rtable t [] = fault uninitialised
  parse_rtable t (l ∷ lines) = do t' ← add_routes t (l ∷ lines); sort_buckets t'
