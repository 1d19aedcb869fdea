-- ===== src/Router/Checksum.antt =====
-- PCom1/skel.c and PCom1/router.c: the checksums of IP and ICMP headers.
pub mod Sum
pub mod Update
use pcom_assignments.Prelude.{
  ℕ, zero, suc, ◌+◌, ◌-◌, ◌/◌, ◌%◌, List, [], ◌∷◌, ◌++◌, ◌==◌, ltb, if◌then◌else◌, get_or, take,
  drop, replicate,
}
use pcom_assignments.Prelude.Words.{u8, u16, u32, u64, le16, le32, swap16, swap32}
use pcom_assignments.Prelude.Bytes.{Memory, slice, store, read16, bytes16}
use pcom_assignments.Prelude.Run.{Run, done, fault, out_of_bounds, out_of_fuel, ◌>>=◌}

-- `acc += ntohl(word)` of 64 bits, where `word` is zero but for the copied bytes.
unfoldable pub add_word : ℕ → List ℕ → ℕ
unfolding swap32
add_word acc bytes = u64 (
    acc + swap32 (le32 (get_or bytes 0 0) (get_or bytes 1 0) (get_or bytes 2 0) (get_or bytes 3 0)))

-- The complete 32-bit blocks and the partial block at the end.
unfoldable pub add_blocks : ℕ → List ℕ → ℕ
add_blocks acc (a ∷ b ∷ c ∷ d ∷ rest) = add_blocks (add_word acc (a ∷ b ∷ c ∷ d ∷ [])) rest
add_blocks acc [] = acc
add_blocks acc rest = add_word acc rest

-- The partial block at the start of data whose address is `offset` modulo 4.
unfoldable pub add_data : (offset : ℕ) → ℕ → List ℕ → ℕ
add_data offset acc bytes =
    if offset == 0
    then add_blocks acc bytes
    else add_blocks (add_word acc (replicate offset 0 ++ take (4 - offset) bytes))
        (drop (4 - offset) bytes)

-- `while (acc>>16) { acc=(acc&0xffff)+(acc>>16); }`
unfoldable pub fold_carries : (fuel acc : ℕ) → Run ℕ
fold_carries zero acc = fault out_of_fuel
fold_carries (suc fuel) acc =
    let rest = fold_carries fuel (acc % 0x1_0000 + acc / 0x1_0000) in
    if acc / 0x1_0000 == 0 then done acc else rest

-- `offset` is the address of the data modulo 4; the data is given as its bytes.
unfoldable pub ip_checksum : (offset : ℕ) → List ℕ → Run ℕ
ip_checksum offset bytes = do
  let acc = add_data offset 0xffff bytes
  acc' ← fold_carries 5 (acc % 0x1_0000_0000 + acc / 0x1_0000_0000)
  let acc'' = if offset % 2 == 1 then swap16 acc' else acc'
  done (swap16 (u16 (0xffff_ffff_ffff_ffff - acc'')))

-- The 16-bit words of the buffer; an odd last byte would be read together with the byte behind
-- the buffer.
unfoldable pub icmp_sum : ℕ → List ℕ → Run ℕ
icmp_sum cksum [] = done cksum
icmp_sum cksum (a ∷ []) = fault out_of_bounds
icmp_sum cksum (a ∷ b ∷ rest) = icmp_sum (u64 (cksum + le16 a b)) rest

unfoldable pub icmp_checksum : List ℕ → Run ℕ
icmp_checksum bytes = do
  cksum ← icmp_sum 0 bytes
  let folded = cksum / 0x1_0000 + cksum % 0x1_0000
  let total = folded + folded / 0x1_0000
  done (u16 (0xffff_ffff_ffff_ffff - total))

-- The operations of a C int, on two's complement patterns.
abbrev sub32 : ℕ → ℕ → ℕ
sub32 a b = u32 (a + 0x1_0000_0000 - b)

abbrev not32 : ℕ → ℕ
not32 a = 0xffff_ffff - a

-- `(check - ~(ttl + 1) - ttl) - 1`, as a `uint16_t`; `ttl` is the decremented one.
pub calculate_checksum : (check ttl : ℕ) → ℕ
calculate_checksum check ttl = u16 (sub32 (sub32 (sub32 check (not32 (ttl + 1))) ttl) 1)

-- The bytes of the IP header of a frame, which stands behind 14 bytes of Ethernet header.
abbrev pub header : Memory → List ℕ
header m = slice m 14 20

-- `ip_hdr->ttl--` of a byte.
abbrev pub decremented : Memory → Memory
decremented m = store m 22 (u8 (m 22 + 0xff) ∷ [])

-- `ip_hdr->check = calculate_checksum(ip_hdr)`, after the decrement.
abbrev pub updated : Memory → Memory
updated m =
    store (decremented m) 24
      (bytes16 (calculate_checksum (read16 (decremented m) 24) (decremented m 22)))
