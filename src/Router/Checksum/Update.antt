-- ===== src/Router/Checksum/Update.antt =====
-- PCom1/router.c: `calculate_checksum`, the incremental update when the TTL is decremented.
use pcom_assignments.Prelude.{
  ℕ, zero, suc, ◌+◌, ◌-◌, ◌%◌, ◌<◌, ◌≡◌, ◌∙◌, ◌≢◌, ◌↔◌, ap, arith, List, ◌==◌, if◌then◌else◌,
  length, true, Bool-cases, inl, inr, ==_iff, ne→not_==, sym,
}
use mathlib.Core.Bool.{false≢true}
use pcom_assignments.Prelude.Words.{u8, swap16}
use pcom_assignments.Prelude.Run.{done, Returns-eq}
use pcom_assignments.Prelude.Bytes.{Memory, IsMemory, IsBytes, slice, read16}
use pcom_assignments.Router.Checksum.{calculate_checksum, header, updated, ip_checksum}
use pcom_assignments.Router.Checksum.Sum.{word_sum, IsFolded, ip_checksum-IsFolded}

-- In the 16 bits the int arithmetic comes down to one increment.
pub calculate_checksum-suc :
    (check ttl : ℕ)
    → check < 0x1_0000
    → ttl < 255
    → calculate_checksum check ttl ≡ (check + 1) % 0x1_0000
unfolding calculate_checksum
calculate_checksum-suc check ttl hc ht = omega arith

-- The header passes the check exactly if its words sum up to zero in one's complement.
zero_iff :
    (sum r : ℕ) → r < 0x1_0000 → IsFolded sum (0xffff - swap16 r) → (r ≡ 0) ↔ (sum % 0xffff ≡ 0)
unfolding swap16
zero_iff sum r small v =
    ((λ e. omega (arith, v.congruent)), (λ e. omega (arith, v.congruent, v.positive)))

pub checksum_zero_iff :
    (offset : ℕ) (bytes : List ℕ)
    → offset < 4
    → IsBytes bytes
    → length bytes < 0x1000_0000
    → (ip_checksum offset bytes ≡ done 0) ↔ (word_sum bytes % 0xffff ≡ 0)
checksum_zero_iff offset bytes lt h len =
    let (r, e, fits) = Returns-eq (ip_checksum-IsFolded offset bytes lt h len) in
    rw e (
      (λ z. (zero_iff (word_sum bytes) r fits.0 fits.1).0 (ground arith)),
      (λ z. ap done ((zero_iff (word_sum bytes) r fits.0 fits.1).1 z)),
    )

pub header-IsBytes : (m : Memory) → IsMemory m → (at n : ℕ) → IsBytes (slice m at n)
header-IsBytes m h at zero = tt
header-IsBytes m h at (suc n) = (h at, header-IsBytes m h (at + 1) n)

pub updated_word : (m : Memory) → IsMemory m → 0 < m 22 → (a : ℕ) → updated m a < 256
updated_word m h pos a = ground (arith, h a, h 22)

-- The sum of the words stays the same modulo 0xffff, but for a checksum field of 0xffff, where the
-- increment wraps to zero, which stands for the same number.
updated_sum :
    (m : Memory)
    → IsMemory m
    → 0 < m 22
    → (word_sum (header (updated m)) + (if read16 m 24 == 0xffff then 0x100 else 0)) % 0xffff
      ≡ word_sum (header m) % 0xffff
updated_sum m h pos =
    let step =
      calculate_checksum-suc (read16 m 24) (u8 (m 22 + 0xff)) (omega (arith, h 24, h 25))
        (omega (arith, h 22)) in
    elim (Bool-cases (read16 m 24 == 0xffff)) [
      | inl full ↦
          let is_full = (==_iff (read16 m 24) 0xffff).0 full in
          rw full (omega (arith, step, is_full, h 24, h 25))
      | inr other ↦
          let not_full : read16 m 24 ≢ 0xffff =
            λ e. false≢true (sym other ∙ (==_iff (read16 m 24) 0xffff).1 e) in
          rw other (omega (arith, step, not_full, h 24, h 25))
    ]

-- For a header that passes the check and has a positive TTL, the header with the TTL decremented
-- and the checksum updated passes it again exactly if the checksum field was not 0xffff.
pub updated-valid :
    (offset : ℕ) (m : Memory)
    → offset < 4
    → IsMemory m
    → 0 < m 22
    → ip_checksum offset (header m) ≡ done 0
    → (ip_checksum offset (header (updated m)) ≡ done 0) ↔ (read16 m 24 ≢ 0xffff)
updated-valid offset m lt h pos valid =
    let before =
      (checksum_zero_iff offset (header m) lt (header-IsBytes m h 14 20) (omega arith)).0 valid in
    let after =
      checksum_zero_iff offset (header (updated m)) lt
        (header-IsBytes (updated m) (updated_word m h pos) 14 20) (omega arith) in
    let sum = updated_sum m h pos in
    (
      (λ passes full. omega (arith, before, after.0 passes, rw (full_test full) at sum)),
      (λ free. after.1 (omega (arith, before, rw (ne→not_== (read16 m 24) 0xffff free) at sum))),
    )
  where
    full_test : read16 m 24 ≡ 0xffff → (read16 m 24 == 0xffff) ≡ true
    full_test e = (==_iff (read16 m 24) 0xffff).1 e
