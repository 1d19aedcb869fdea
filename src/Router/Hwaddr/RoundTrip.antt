-- ===== src/Router/Hwaddr/RoundTrip.antt =====
-- PCom1/skel.c: `hwaddr_aton` reads back the colon-separated text of any address.
use pcom_assignments.Prelude.{
  ℕ, suc, ◌+◌, ◌-◌, ◌/◌, ◌%◌, ◌<◌, ◌≡◌, arith, List, [], ◌∷◌, some, ltb, if◌then◌else◌, length,
  lt→ltb, ne→not_==,
}
use pcom_assignments.Prelude.Bytes.{IsBytes}
use pcom_assignments.Router.Hwaddr.{hex2num, bytes_left, hwaddr_aton}

-- Lower-case digits, two for each byte.
abbrev pub hex_digit : ℕ → ℕ
hex_digit n = if ltb n 10 then b'0' + n else b'a' + (n - 10)

abbrev pub hwaddr_text : List ℕ → List ℕ
hwaddr_text [] = []
hwaddr_text (b ∷ []) = hex_digit (b / 16) ∷ hex_digit (b % 16) ∷ []
hwaddr_text (b ∷ c ∷ bs) = hex_digit (b / 16) ∷ hex_digit (b % 16) ∷ b':' ∷ hwaddr_text (c ∷ bs)

hex2num-hex_digit : (n : ℕ) → n < 16 → hex2num (hex_digit n) ≡ some n
unfolding hex2num
hex2num-hex_digit n h = ground arith

bytes_left-hwaddr_text :
    (b : ℕ) (bs : List ℕ)
    → IsBytes (b ∷ bs)
    → bytes_left (length (b ∷ bs)) (hwaddr_text (b ∷ bs)) ≡ some (b ∷ bs)
unfolding bytes_left
bytes_left-hwaddr_text b [] h =
    rw (hex2num-hex_digit (b / 16) (omega arith), hex2num-hex_digit (b % 16) (omega arith))
      (ground arith)
bytes_left-hwaddr_text b (c ∷ bs) h =
    rw
      (
        hex2num-hex_digit (b / 16) (omega arith),
        hex2num-hex_digit (b % 16) (omega arith),
        lt→ltb 0 (suc (length bs)) (omega arith),
        ne→not_== (suc (length bs)) 0 (omega arith),
      )
      (rw (bytes_left-hwaddr_text c bs h.1) (ground (arith)))

-- `hwaddr_aton` succeeds on the text of every six bytes and gives these bytes.
pub hwaddr_aton-hwaddr_text :
    (mac : List ℕ) → length mac ≡ 6 → IsBytes mac → hwaddr_aton (hwaddr_text mac) ≡ some mac
unfolding hwaddr_aton
hwaddr_aton-hwaddr_text [] len h = absurd (omega arith)
hwaddr_aton-hwaddr_text (b ∷ bs) len h = rw len at (bytes_left-hwaddr_text b bs h)
