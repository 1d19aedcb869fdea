-- ===== src/Router/Hwaddr.antt =====
-- PCom1/skel.c: the text form of hardware addresses. A text is the list of its character codes;
-- its end stands for the NUL character, which is no digit and no colon.
pub mod RoundTrip
use pcom_assignments.Prelude.{
  ℕ, zero, suc, ◌+◌, ◌-◌, ◌*◌, List, [], ◌∷◌, ◌&&◌, not, Option, none, some, ◌==◌, leb, ltb,
  if◌then◌else◌,
}

-- `none` is the result -1.
pub hex2num : ℕ → Option ℕ
hex2num c =
    if leb b'0' c && leb c b'9'
    then some (c - b'0')
    else if leb b'a' c && leb c b'f'
    then some (c - b'a' + 10)
    else if leb b'A' c && leb c b'F'
    then some (c - b'A' + 10)
    else none

infixl 5 ◌>>=◌
abbrev ◌>>=◌ {ℓ κ} : {A : Type ℓ} {B : Type κ} → Option A → (A → Option B) → Option B
none >>= f = none
some a >>= f = f a

-- `*txt++`
abbrev next : List ℕ → ℕ × List ℕ
next [] = (0, [])
next (c ∷ txt) = (c, txt)

-- Two digits, and the text behind them. The low four bits of `a << 4` are zero, so `|` adds.
unfoldable pub hex2byte : List ℕ → Option (ℕ × List ℕ)
hex2byte txt = do
  let (c, txt') = next txt
  a ← hex2num c
  let (d, txt'') = next txt'
  b ← hex2num d
  some (a * 16 + b, txt'')

-- The rounds left of the loop; every byte but the last is followed by a colon.
pub bytes_left : ℕ → List ℕ → Option (List ℕ)
bytes_left zero txt = some []
bytes_left (suc left) txt = do
  let (c, txt') = next txt
  a ← hex2num c
  let (d, txt'') = next txt'
  b ← hex2num d
  let (colon, txt''') = next txt''
  let more = bytes_left left (if left == 0 then txt'' else txt''')
  addr ← (if ltb 0 left && not (colon == b':') then none else more)
  some ((a * 16 + b) ∷ addr)

-- The six bytes of the address; `none` is the result -1.
pub hwaddr_aton : List ℕ → Option (List ℕ)
hwaddr_aton txt = bytes_left 6 txt
