-- ===== src/Router/Masks.antt =====
-- PCom1/router.c: `get_prefix_length` and `get_subnet_mask`, on words in network byte order.
pub mod Lengths
use pcom_assignments.Prelude.{
  ℕ, zero, suc, ◌+◌, ◌-◌, ◌*◌, ◌%◌, ◌^◌, Option, none, some, ◌==◌, ltb, if◌then◌else◌,
}
use pcom_assignments.Prelude.Words.{u32, swap32}

-- `while (ip > 0) { ip = ip << 1; prefix++; }`; `none` means that the fuel ran out.
unfoldable pub prefix_loop : (fuel ip prefix : ℕ) → Option ℕ
prefix_loop zero ip prefix = none
prefix_loop (suc fuel) ip prefix =
    let rest = prefix_loop fuel (u32 (ip * 2)) (prefix + 1) in
    if ltb 0 ip then rest else some prefix

-- A 32-bit word is shifted out in 32 rounds, and one more finds it zero.
unfoldable pub get_prefix_length : ℕ → Option ℕ
get_prefix_length ip_addr = prefix_loop 33 (swap32 ip_addr) 0

-- `a << n` of a 32-bit int as the x86 instruction computes it: the count is taken modulo 32. The
-- source relies on that for the prefixes 0 and 32, where C leaves the shift undefined.
unfoldable pub shl32 : ℕ → ℕ → ℕ
shl32 a n = u32 (a * 2 ^ (n % 32))

unfoldable pub get_subnet_mask : ℕ → ℕ
unfolding shl32
get_subnet_mask prefix =
    swap32
      (shl32 (u32 (shl32 1 prefix + 0x1_0000_0000 - (if prefix == 32 then 2 else 1))) (32 - prefix))
