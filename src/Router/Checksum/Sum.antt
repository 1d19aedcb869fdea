-- ===== src/Router/Checksum/Sum.antt =====
-- PCom1/skel.c: `ip_checksum` against the Internet checksum, the complement of the sum of the
-- 16-bit words in network order in one's complement arithmetic.
use pcom_assignments.Prelude.{
  ℕ, zero, suc, ◌+◌, ◌-◌, ◌*◌, ◌/◌, ◌%◌, ◌≤◌, ◌<◌, ◌≡◌, refl, arith, Bool, true, false, List, [],
  ◌∷◌, ◌==◌, if◌then◌else◌, length, ne→not_==,
}
use native.Mathlib.Decide.{dec_lt}
use pcom_assignments.Prelude.Words.{u16, swap16, swap16-swap16, swap16_lt}
use pcom_assignments.Prelude.Run.{Returns, returns, Returns-mono, Returns->>=}
use pcom_assignments.Prelude.Bytes.{IsBytes}
use pcom_assignments.Router.Checksum.{add_word, add_blocks, add_data, fold_carries, ip_checksum}

-- The sum of the words in network order; an odd last byte is the high byte of its word.
abbrev pub word_sum : List ℕ → ℕ
word_sum [] = 0
word_sum (a ∷ []) = 0x100 * a
word_sum (a ∷ b ∷ rest) = 0x100 * a + b + word_sum rest

-- `c` is the sum in one's complement, where zero is written 0xffff.
pub record IsFolded (sum c : ℕ) : Type 0 where
  pub congruent : c % 0xffff ≡ sum % 0xffff
  pub positive : 0 < c
  pub small : c < 0x1_0000

-- A block adds less than 2 ^ 32, and as much as its two words modulo 0xffff.
add_word_block :
    (acc a b c d : ℕ)
    → a < 256
    → b < 256
    → c < 256
    → d < 256
    → acc + 0x1_0000_0000 < 0x1_0000_0000_0000_0000
    → add_word acc (a ∷ b ∷ c ∷ d ∷ []) ≡ acc + (0x100_0000 * a + 0x1_0000 * b + 0x100 * c + d)
unfolding add_word
add_word_block acc a b c d ha hb hc hd bound = omega arith

add_blocks_lem :
    (acc : ℕ) (bytes : List ℕ)
    → IsBytes bytes
    → acc + 0x1_0000_0000 * length bytes < 0x1_0000_0000_0000_0000
    → (add_blocks acc bytes % 0xffff ≡ (acc + word_sum bytes) % 0xffff)
      × (acc ≤ add_blocks acc bytes)
      × (add_blocks acc bytes ≤ acc + 0x1_0000_0000 * length bytes)
unfolding add_blocks
add_blocks_lem acc [] h bound = omega arith
add_blocks_lem acc (a ∷ []) h bound = unfold add_word in omega arith
add_blocks_lem acc (a ∷ b ∷ []) h bound = unfold add_word in omega arith
add_blocks_lem acc (a ∷ b ∷ c ∷ []) h bound = unfold add_word in omega arith
add_blocks_lem acc (a ∷ b ∷ c ∷ d ∷ rest) h bound =
    let block = add_word_block acc a b c d h.0 h.1.0 h.1.1.0 h.1.1.1.0 (omega arith) in
    omega (
      arith,
      block,
      add_blocks_lem (add_word acc (a ∷ b ∷ c ∷ d ∷ [])) rest h.1.1.1.1 (rw block (omega arith)),
    )

-- One round keeps the sum modulo 0xffff and does not reach zero.
fold_round :
    (fuel acc : ℕ)
    → 0 < acc
    → (0 < acc % 0x1_0000 + acc / 0x1_0000
        → 0x1_0000 ≤ acc
        → Returns
            (IsFolded (acc % 0x1_0000 + acc / 0x1_0000))
            (fold_carries fuel (acc % 0x1_0000 + acc / 0x1_0000)))
    → Returns (IsFolded acc) (fold_carries (suc fuel) acc)
unfolding fold_carries
fold_round fuel acc pos next = elim (dec_lt acc 0x1_0000) [
  | yes small ↦
      let no_carry : acc / 0x1_0000 ≡ 0 = omega arith in
      rw no_carry (returns (record { congruent = refl; positive = pos; small = small }))
  | no large ↦ rw (ne→not_== (acc / 0x1_0000) 0 (omega arith)) (
      Returns-mono (next (omega arith) (omega arith)) λ c v. record {
        congruent = omega (arith, v.congruent);
        positive = v.positive;
        small = v.small;
      })
]

-- A sum of 33 bits needs three rounds at most.
fold_lem : (acc : ℕ) → 0 < acc → acc < 0x2_0000_0000 → Returns (IsFolded acc) (fold_carries 5 acc)
fold_lem acc pos small = fold_round 4 acc pos λ pos1 l1.
    fold_round 3 _ pos1
      λ pos2 l2. fold_round 2 _ pos2 λ pos3 l3. fold_round 1 _ pos3 λ pos4 l4. absurd (omega arith)

-- In one's complement a shift by one byte is a multiplication by 0x100.
word_sum_shift :
    (a : ℕ) (rest : List ℕ) → word_sum (a ∷ rest) % 0xffff ≡ (0x100 * (a + word_sum rest)) % 0xffff
word_sum_shift a [] = omega arith
word_sum_shift a (b ∷ rest) = omega (arith, word_sum_shift b rest)

-- The sum of the words for the true address, and the same in bytes that stand one place on.
abbrev Sums : (odd : Bool) → List ℕ → ℕ → Type 0
Sums true bytes acc =
    ((0x100 * acc) % 0xffff ≡ word_sum bytes % 0xffff)
    × (0xffff ≤ acc)
    × (acc < 0x1_0000_0000_0000_0000)
Sums false bytes acc =
    (acc % 0xffff ≡ word_sum bytes % 0xffff) × (0xffff ≤ acc) × (acc < 0x1_0000_0000_0000_0000)

head_word :
    (a b c d : ℕ)
    → a < 256
    → b < 256
    → c < 256
    → d < 256
    → add_word 0xffff (a ∷ b ∷ c ∷ d ∷ [])
      ≡ 0xffff + (0x100_0000 * a + 0x1_0000 * b + 0x100 * c + d)
unfolding add_word
head_word a b c d ha hb hc hd = omega arith

-- The blocks behind the first one, which has given `acc`.
after_head :
    (acc : ℕ) (rest : List ℕ)
    → acc < 0x2_0000_0000
    → IsBytes rest
    → length rest < 0x1000_0000
    → (add_blocks acc rest % 0xffff ≡ (acc + word_sum rest) % 0xffff)
      × (acc ≤ add_blocks acc rest)
      × (add_blocks acc rest < 0x1_0000_0000_0000_0000)
after_head acc rest small h len = omega (arith, add_blocks_lem acc rest h (omega arith))

add_data_one :
    (bytes : List ℕ)
    → IsBytes bytes
    → length bytes < 0x1000_0000
    → Sums true bytes (add_data 1 0xffff bytes)
unfolding add_data
add_data_one [] h len = unfold add_word add_blocks in omega arith
add_data_one (a ∷ []) h len = unfold add_word add_blocks in omega arith
add_data_one (a ∷ b ∷ []) h len = unfold add_word add_blocks in omega arith
add_data_one (a ∷ b ∷ c ∷ rest) h len =
    let head = head_word 0 a b c (omega arith) h.0 h.1.0 h.1.1.0 in
    omega (
      arith,
      head,
      word_sum_shift c rest,
      after_head (add_word 0xffff (0 ∷ a ∷ b ∷ c ∷ [])) rest (omega arith) h.1.1.1 (omega arith),
    )

add_data_two :
    (bytes : List ℕ)
    → IsBytes bytes
    → length bytes < 0x1000_0000
    → Sums false bytes (add_data 2 0xffff bytes)
unfolding add_data
add_data_two [] h len = unfold add_word add_blocks in omega arith
add_data_two (a ∷ []) h len = unfold add_word add_blocks in omega arith
add_data_two (a ∷ b ∷ rest) h len =
    let head = head_word 0 0 a b (omega arith) (omega arith) h.0 h.1.0 in
    omega (
      arith,
      head,
      after_head (add_word 0xffff (0 ∷ 0 ∷ a ∷ b ∷ [])) rest (omega arith) h.1.1 (omega arith),
    )

add_data_three :
    (bytes : List ℕ)
    → IsBytes bytes
    → length bytes < 0x1000_0000
    → Sums true bytes (add_data 3 0xffff bytes)
unfolding add_data
add_data_three [] h len = unfold add_word add_blocks in omega arith
add_data_three (a ∷ rest) h len =
    let head = head_word 0 0 0 a (omega arith) (omega arith) (omega arith) h.0 in
    omega (
      arith,
      head,
      word_sum_shift a rest,
      after_head (add_word 0xffff (0 ∷ 0 ∷ 0 ∷ a ∷ [])) rest (omega arith) h.1 (omega arith),
    )

add_data_lem :
    (offset : ℕ) (bytes : List ℕ)
    → offset < 4
    → IsBytes bytes
    → length bytes < 0x1000_0000
    → Sums (offset % 2 == 1) bytes (add_data offset 0xffff bytes)
add_data_lem zero bytes lt h len =
    unfold add_data in omega (arith, after_head 0xffff bytes (omega arith) h len)
add_data_lem (suc zero) bytes lt h len = add_data_one bytes h len
add_data_lem (suc (suc zero)) bytes lt h len = add_data_two bytes h len
add_data_lem (suc (suc (suc zero))) bytes lt h len = add_data_three bytes h len
add_data_lem (suc (suc (suc (suc n)))) bytes lt h len = absurd (omega arith)

Sums-bounds :
    (odd : Bool) (bytes : List ℕ) (acc : ℕ)
    → Sums odd bytes acc
    → (0xffff ≤ acc) × (acc < 0x1_0000_0000_0000_0000)
Sums-bounds true bytes acc s = (s.1, s.2)
Sums-bounds false bytes acc s = (s.1, s.2)

-- The folded sum in the order of the data.
in_order :
    (odd : Bool) (bytes : List ℕ) (acc c : ℕ)
    → Sums odd bytes acc
    → IsFolded (acc % 0x1_0000_0000 + acc / 0x1_0000_0000) c
    → IsFolded (word_sum bytes) (if odd then swap16 c else c)
unfolding swap16
in_order true bytes acc c s v = record {
  congruent = omega (arith, s.0, v.congruent, v.small);
  positive = omega (arith, v.positive, v.small);
  small = omega (arith, v.small);
}
in_order false bytes acc c s v = record {
  congruent = omega (arith, s.0, v.congruent, v.small);
  positive = v.positive;
  small = v.small;
}

-- For data of less than 2 ^ 28 bytes at any address the loops of `ip_checksum` end, and its result
-- is the complement, in network order, of the folded sum of the words of the data.
pub ip_checksum-IsFolded :
    (offset : ℕ) (bytes : List ℕ)
    → offset < 4
    → IsBytes bytes
    → length bytes < 0x1000_0000
    → Returns
        (λ r. (r < 0x1_0000) × IsFolded (word_sum bytes) (0xffff - swap16 r))
        (ip_checksum offset bytes)
unfolding ip_checksum
ip_checksum-IsFolded offset bytes lt h len =
    let s = add_data_lem offset bytes lt h len in
    Returns->>= (fold_lem _ (omega (arith, within.0)) (omega (arith, within.1)))
      λ c v. returns (swap16_lt _, complement (in_order (offset % 2 == 1) bytes _ c s v))
  where
    within :
        (0xffff ≤ add_data offset 0xffff bytes)
        × (add_data offset 0xffff bytes < 0x1_0000_0000_0000_0000)
    within = Sums-bounds (offset % 2 == 1) bytes _ (add_data_lem offset bytes lt h len)

    complement :
        {c : ℕ}
        → IsFolded (word_sum bytes) c
        → IsFolded (word_sum bytes) (0xffff - swap16 (swap16 (u16 (0xffff_ffff_ffff_ffff - c))))
    complement {c} v =
        let low = u16 (0xffff_ffff_ffff_ffff - c) in
        let same : 0xffff - swap16 (swap16 low) ≡ c =
          omega (arith, swap16-swap16 low (omega arith), v.small) in
        rw same v
