-- ===== src/Router/ArpTable/Laws.antt =====
-- PCom1/router.c: what the ARP table answers, by the list of the entries added to it.
use pcom_assignments.Prelude.{
  ℕ, zero, suc, ◌+◌, ◌≡◌, ap, refl, ◌∙◌, arith, List, [], ◌∷◌, ◌++◌, Option, none, some, ◌==◌,
  if◌then◌else◌, length, get_elem?, drop,
}
use native.Mathlib.Numerals.{towards_suc}
use pcom_assignments.Prelude.Run.{done, Returns, Returns-mono}
use pcom_assignments.Router.GrowArray.Holds.{Holds, init-Holds, push-Holds, read-Holds}
use pcom_assignments.Router.ArpTable.{
  ArptableEntry, Arptable, init_arptable, add_to_arptable, get_mac, get_mac_from,
}

-- The specification: the first entry for an address, in the order of their arrival.
abbrev pub first_for : ℕ → List ArptableEntry → Option ArptableEntry
first_for ip [] = none
first_for ip (e ∷ es) = if e.ip == ip then some e else first_for ip es

get_elem?-drop :
    (es : List ArptableEntry) (i : ℕ) {e : ArptableEntry} {rest : List ArptableEntry}
    → drop i es ≡ e ∷ rest
    → get_elem? es i ≡ some e
get_elem?-drop [] zero h = cc
get_elem?-drop [] (suc i) h = cc
get_elem?-drop (x ∷ es) zero h = cc
get_elem?-drop (x ∷ es) (suc i) h = get_elem?-drop es i h

drop-suc :
    (es : List ArptableEntry) (i : ℕ) {e : ArptableEntry} {rest : List ArptableEntry}
    → drop i es ≡ e ∷ rest
    → drop (i + 1) es ≡ rest
drop-suc [] zero h = cc
drop-suc [] (suc i) h = cc
drop-suc (x ∷ es) zero h = ground arith
drop-suc (x ∷ es) (suc i) h = simp towards_suc (simp towards_suc at (drop-suc es i h))

get_mac_from-first_for :
    (t : Arptable) (es : List ArptableEntry) (ip : ℕ)
    → Holds t es
    → (rest : List ArptableEntry) (i : ℕ) → drop i es ≡ rest
    → get_mac_from t ip (length rest) i ≡ done (first_for ip rest)
unfolding get_mac_from
get_mac_from-first_for t es ip h [] i e = refl
get_mac_from-first_for t es ip h (x ∷ rest) i e =
    rw (read-Holds h i (get_elem?-drop es i e))
      (ground (arith, get_mac_from-first_for t es ip h rest (i + 1) (drop-suc es i e)))

-- For an array that holds `es`, the search never leaves the cells in use, and answers with the
-- first entry for the address or with NULL.
pub get_mac-first_for :
    (t : Arptable) (es : List ArptableEntry) (ip : ℕ)
    → Holds t es
    → get_mac t ip ≡ done (first_for ip es)
unfolding get_mac
get_mac-first_for t es ip h = simp h.counted (get_mac_from-first_for t es ip h es 0 refl)

-- The same search over a table with one more entry at its end.
abbrev pub or_entry : Option ArptableEntry → ℕ → ArptableEntry → Option ArptableEntry
or_entry (some e) ip new = some e
or_entry none ip new = if new.ip == ip then some new else none

pub first_for-append :
    (ip : ℕ) (es : List ArptableEntry) (new : ArptableEntry)
    → first_for ip (es ++ new ∷ []) ≡ or_entry (first_for ip es) ip new
first_for-append ip [] new = refl
first_for-append ip (e ∷ es) new = ground (arith, first_for-append ip es new)

pub init_arptable-Holds : Holds init_arptable []
unfolding init_arptable
init_arptable-Holds = init-Holds

-- Adding an entry never writes out of the array. Afterwards a search for `q` answers as it did
-- before if it found an entry, and else finds the new entry exactly if that is for `q`.
pub get_mac-add_to_arptable :
    (t : Arptable) (es : List ArptableEntry) (ip : ℕ) (mac : List ℕ) (q : ℕ)
    → Holds t es
    → Returns
        (λ t'.
          Holds t' (es ++ record { ip = ip; mac = mac } ∷ [])
          × (get_mac t' q ≡ done (or_entry (first_for q es) q (record { ip = ip; mac = mac }))))
        (add_to_arptable t ip mac)
unfolding add_to_arptable
get_mac-add_to_arptable t es ip mac q h =
    Returns-mono (push-Holds _ h)
      λ t' h'. (h', get_mac-first_for t' _ q h' ∙ ap done (first_for-append q es _))
