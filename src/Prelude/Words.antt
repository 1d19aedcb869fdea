-- ===== src/Prelude/Words.antt =====
-- Fixed-width words of a little-endian machine, and the byte orders of the network headers.
use pcom_assignments.Prelude.{ℕ, ◌+◌, ◌*◌, ◌/◌, ◌%◌, ◌<◌, ◌≡◌, arith}

abbrev pub u8 : ℕ → ℕ
u8 n = n % 256

abbrev pub u16 : ℕ → ℕ
u16 n = n % 0x1_0000

abbrev pub u32 : ℕ → ℕ
u32 n = n % 0x1_0000_0000

abbrev pub u64 : ℕ → ℕ
u64 n = n % 0x1_0000_0000_0000_0000

-- A word read from its bytes in memory, lowest address first.
abbrev pub le16 : ℕ → ℕ → ℕ
le16 a b = a + 0x100 * b

abbrev pub le32 : ℕ → ℕ → ℕ → ℕ → ℕ
le32 a b c d = a + 0x100 * b + 0x1_0000 * c + 0x100_0000 * d

abbrev pub byte : ℕ → ℕ → ℕ
byte k w = w / k % 256

-- `htons` and `ntohs`, which are one function.
unfoldable pub swap16 : ℕ → ℕ
swap16 w = 0x100 * byte 1 w + byte 0x100 w

-- `htonl` and `ntohl`.
unfoldable pub swap32 : ℕ → ℕ
swap32 w =
    0x100_0000 * byte 1 w + 0x1_0000 * byte 0x100 w + 0x100 * byte 0x1_0000 w + byte 0x100_0000 w

pub swap16_lt : (w : ℕ) → swap16 w < 0x1_0000
unfolding swap16
swap16_lt w = omega arith

pub swap16-swap16 : (w : ℕ) → w < 0x1_0000 → swap16 (swap16 w) ≡ w
unfolding swap16
swap16-swap16 w h = omega arith

pub swap32_lt : (w : ℕ) → swap32 w < 0x1_0000_0000
unfolding swap32
swap32_lt w = omega arith

pub swap32-swap32 : (w : ℕ) → w < 0x1_0000_0000 → swap32 (swap32 w) ≡ w
unfolding swap32
swap32-swap32 w h = omega arith
