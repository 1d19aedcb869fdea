-- ===== src/Router/Masks/Lengths.antt =====
-- PCom1/router.c: the prefix length of a mask, and the mask of a prefix length.
use pcom_assignments.Prelude.{
  ℕ, zero, suc, ◌+◌, ◌-◌, ◌*◌, ◌%◌, ◌^◌, ◌≤◌, ◌<◌, ◌≡◌, refl, ◌≢◌, arith, none, some, Bool, true,
  false, ◌&&◌, ◌==◌, ltb, Bool-cases, ==_iff, inl, inr,
}
use native.Mathlib.Decide.{dec_lt}
use native.Mathlib.Nat.{pow-suc}
use native.Mathlib.Numerals.{add-one}
use pcom_assignments.Prelude.Words.{u32, swap32, swap32_lt}
use pcom_assignments.Router.Masks.{prefix_loop, get_prefix_length, get_subnet_mask}

-- `p` is the number of the bits of `ip` up to its lowest one: the least shift that clears it.
abbrev pub IsPrefixLength : ℕ → ℕ → Type 0
IsPrefixLength ip p =
    (p ≤ 32) × ((ip * 2 ^ p) % 2 ^ 32 ≡ 0) × ((q : ℕ) → q < p → (ip * 2 ^ q) % 2 ^ 32 ≢ 0)

next_shift : (ip k : ℕ) → u32 ((ip * 2 ^ k) % 2 ^ 32 * 2) ≡ (ip * 2 ^ (k + 1)) % 2 ^ 32
next_shift ip k = simp (add-one, pow-suc) (grind arith)

one_more :
    (ip k : ℕ)
    → ((q : ℕ) → q < k → (ip * 2 ^ q) % 2 ^ 32 ≢ 0)
    → (ip * 2 ^ k) % 2 ^ 32 ≢ 0
    → (q : ℕ) → q < k + 1
    → (ip * 2 ^ q) % 2 ^ 32 ≢ 0
one_more ip k before here q h = elim (dec_lt q k) [
  | yes less ↦ before q less
  | no not_less ↦ let same : q ≡ k = omega arith in rw same here
]

-- With `k` rounds done the loop holds `ip` shifted by `k`, and none of the shifts before was zero.
loop_lem :
    (fuel ip k : ℕ)
    → fuel + k ≡ 33
    → ((q : ℕ) → q < k → (ip * 2 ^ q) % 2 ^ 32 ≢ 0)
    → (p : ℕ) × (prefix_loop fuel ((ip * 2 ^ k) % 2 ^ 32) k ≡ some p) × IsPrefixLength ip p
unfolding prefix_loop
loop_lem zero ip k total before = absurd (before 32 (omega arith) (omega arith))
loop_lem (suc fuel) ip k total before = elim (Bool-cases (ltb 0 ((ip * 2 ^ k) % 2 ^ 32))) [
  | inl more ↦
      rw (more, next_shift ip k)
        (loop_lem fuel ip (k + 1) (omega arith) (one_more ip k before (ground arith)))
  | inr done ↦ (k, rw done, (omega arith, ground arith, before))
]

-- For every 32-bit word the loop ends within its fuel, and its result is the length of the word up
-- to its lowest one bit, which is at most 32: an index of one of the 33 buckets.
pub get_prefix_length-IsPrefixLength :
    (mask : ℕ) → (p : ℕ) × (get_prefix_length mask ≡ some p) × IsPrefixLength (swap32 mask) p
unfolding get_prefix_length
get_prefix_length-IsPrefixLength mask =
    let found = loop_lem 33 (swap32 mask) 0 (omega arith) (λ q h. absurd (omega arith)) in
    (found.0, rw whole at found.1, found.2)
  where
    whole : (swap32 mask * 2 ^ 0) % 2 ^ 32 ≡ swap32 mask
    whole = omega (arith, swap32_lt mask)

-- The wrapped arithmetic gives the mask with `p` leading ones in host order, for every `p`.
mask_table : (p : ℕ) → Bool
mask_table p = swap32 (get_subnet_mask p) == 2 ^ 32 - 2 ^ (32 - p)

length_table : (p : ℕ) → Bool
length_table p = elim (get_prefix_length (get_subnet_mask p)) [ none ↦ false | some q ↦ q == p ]

all_below : ℕ → (ℕ → Bool) → Bool
all_below zero f = true
all_below (suc n) f = f n && all_below n f

all_below_sound : (n : ℕ) (f : ℕ → Bool) (x : ℕ) → all_below n f ≡ true → x < n → f x ≡ true
unfolding all_below
all_below_sound zero f x h lt = absurd (omega arith)
all_below_sound (suc n) f x h lt = ground (arith, all_below_sound n f x)

masks_right : all_below 33 mask_table ≡ true
unfolding all_below mask_table swap32 get_subnet_mask
masks_right = refl

lengths_right : all_below 33 length_table ≡ true
unfolding all_below length_table swap32 get_subnet_mask get_prefix_length prefix_loop
lengths_right = refl

-- For every prefix length up to 32, 0 and 32 included, `get_subnet_mask` gives in network byte
-- order the word whose `p` leading bits are ones and whose other bits are zero.
pub get_subnet_mask_ones : (p : ℕ) → p ≤ 32 → swap32 (get_subnet_mask p) ≡ 2 ^ 32 - 2 ^ (32 - p)
get_subnet_mask_ones p h =
    ground (arith, all_below_sound 33 mask_table p masks_right (omega arith), mask_step p)
  where
    mask_step : (p : ℕ) → mask_table p ≡ true → swap32 (get_subnet_mask p) ≡ 2 ^ 32 - 2 ^ (32 - p)
    mask_step p e = (==_iff _ _).0 (unfold mask_table in e)

-- The prefix length of the mask of a prefix length up to 32 is that length.
pub get_prefix_length-get_subnet_mask :
    (p : ℕ) → p ≤ 32 → get_prefix_length (get_subnet_mask p) ≡ some p
get_prefix_length-get_subnet_mask p h =
    length_step (all_below_sound 33 length_table p lengths_right (omega arith))
  where
    length_step : length_table p ≡ true → get_prefix_length (get_subnet_mask p) ≡ some p
    length_step e = unfold length_table in ground (arith, e)
