-- ===== src/Router/GrowArray.antt =====
-- PCom1/router.c: the growing pointer array that the ARP table and the buckets of the routing
-- table share: `size` cells of `capacity` are in use, and a full array doubles its capacity.
pub mod Holds
use pcom_assignments.Prelude.{
  ℕ, ◌+◌, ◌*◌, List, [], ◌∷◌, ◌++◌, Option, none, some, ◌==◌, if◌then◌else◌, get_elem?, set,
  replicate, length, ltb,
}
use pcom_assignments.Prelude.Run.{Run, done, fault, out_of_bounds, uninitialised, ◌>>=◌, require}

-- A cell holds `none` until it is written, as `malloc` leaves it.
pub record GrowArray (A : Type 0) : Type 0 where
  pub entries : List (Option A)
  pub size : ℕ
  pub capacity : ℕ

module _ {A : Type 0} where
  -- `size = 0`, `capacity = 1`, and room for one entry.
  pub init : GrowArray A
  init = record { entries = none ∷ []; size = 0; capacity = 1 }

  -- `entries[i]`
  unfoldable pub read : GrowArray A → ℕ → Run A
  read a i = do cell ← require out_of_bounds (get_elem? a.entries i); require uninitialised cell

  -- `realloc` keeps the cells and leaves the new ones uninitialised.
  pub grow : GrowArray A → GrowArray A
  grow a =
      if a.size == a.capacity
      then record a { entries = a.entries ++ replicate a.capacity none; capacity = a.capacity * 2 }
      else a

  -- `entries[size] = entry; size++;` and then the growth of a full array
  pub push : GrowArray A → A → Run (GrowArray A)
  unfolding grow
  push a x =
      if ltb a.size (length a.entries)
      then done (grow (record a { entries = set a.entries a.size (some x); size = a.size + 1 }))
      else fault out_of_bounds
