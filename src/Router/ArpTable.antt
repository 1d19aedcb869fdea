-- ===== src/Router/ArpTable.antt =====
-- PCom1/router.c: the ARP table, a growing array of addresses that is searched from the front.
pub mod Laws
use pcom_assignments.Prelude.{ℕ, zero, suc, ◌+◌, List, Option, none, some, ◌==◌, if◌then◌else◌}
use pcom_assignments.Prelude.Run.{Run, done, fault, out_of_bounds, ◌>>=◌}
use pcom_assignments.Router.GrowArray
use pcom_assignments.Router.GrowArray.{GrowArray}

-- A hardware address is its bytes, first byte first.
pub record ArptableEntry : Type 0 where
  pub ip : ℕ
  pub mac : List ℕ

abbrev pub Arptable : Type 0
Arptable = GrowArray ArptableEntry

pub init_arptable : Arptable
init_arptable = GrowArray.init

pub add_to_arptable : Arptable → ℕ → List ℕ → Run Arptable
add_to_arptable t ip mac = GrowArray.push t (record { ip = ip; mac = mac })

-- The loop from index `i`, with `left` rounds to go. `none` is the NULL of a failed search.
unfoldable pub get_mac_from : Arptable → ℕ → (left i : ℕ) → Run (Option ArptableEntry)
get_mac_from t ip zero i = done none
get_mac_from t ip (suc left) i = do
  entry ← GrowArray.read t i
  let rest = get_mac_from t ip left (i + 1)
  if entry.ip == ip then done (some entry) else rest

unfoldable pub get_mac : Arptable → ℕ → Run (Option ArptableEntry)
unfolding get_mac_from
get_mac t ip = get_mac_from t ip t.size 0
