-- ===== src/Prelude/Bytes.antt =====
-- Memory as a function from offsets to bytes, and the reads and writes of header fields.
use pcom_assignments.Prelude.{
  ℕ, zero, suc, ◌+◌, ◌<◌, ◌≤◌, ◌≡◌, refl, ap, ◌∙◌, arith, List, [], ◌∷◌, ◌==◌, if◌then◌else◌,
  length, get_or, ne→not_==,
}
use pcom_assignments.Prelude.Words.{le16, le32, byte}

abbrev pub Memory : Type 0
Memory = ℕ → ℕ

abbrev pub IsBytes : List ℕ → Type 0
IsBytes [] = Unit {0}
IsBytes (b ∷ bs) = (b < 256) × IsBytes bs

abbrev pub IsMemory : Memory → Type 0
IsMemory m = (a : ℕ) → m a < 256

-- The `n` bytes from `at` on.
abbrev pub slice : Memory → (at n : ℕ) → List ℕ
slice m at zero = []
slice m at (suc n) = m at ∷ slice m (at + 1) n

abbrev pub read16 : Memory → ℕ → ℕ
read16 m at = le16 (m at) (m (at + 1))

abbrev pub read32 : Memory → ℕ → ℕ
read32 m at = le32 (m at) (m (at + 1)) (m (at + 2)) (m (at + 3))

-- `memcpy` of the bytes to `at`.
abbrev pub store : Memory → ℕ → List ℕ → Memory
store m at [] = m
store m at (b ∷ bs) = λ a. if a == at then b else store m (at + 1) bs a

-- The bytes of a word in memory, lowest address first.
abbrev pub bytes16 : ℕ → List ℕ
bytes16 w = byte 1 w ∷ byte 0x100 w ∷ []

abbrev pub bytes32 : ℕ → List ℕ
bytes32 w = byte 1 w ∷ byte 0x100 w ∷ byte 0x1_0000 w ∷ byte 0x100_0000 w ∷ []

-- A write is not seen below it and behind it.
pub store_below : (m : Memory) (at : ℕ) (bs : List ℕ) (a : ℕ) → a < at → store m at bs a ≡ m a
store_below m at [] a h = refl
store_below m at (b ∷ bs) a h =
    rw (ne→not_== a at (omega arith)) (store_below m (at + 1) bs a (omega arith))

pub store_behind :
    (m : Memory) (at : ℕ) (bs : List ℕ) (a : ℕ) → at + length bs ≤ a → store m at bs a ≡ m a
store_behind m at [] a h = refl
store_behind m at (b ∷ bs) a h =
    rw (ne→not_== a at (omega arith)) (store_behind m (at + 1) bs a (omega arith))

-- Inside it the bytes are those that were written.
pub store_inside :
    (m : Memory) (at : ℕ) (bs : List ℕ) (i : ℕ)
    → i < length bs
    → store m at bs (at + i) ≡ get_or bs i 0
store_inside m at [] i h = absurd (omega arith)
store_inside m at (b ∷ bs) zero h = ground arith
store_inside m at (b ∷ bs) (suc i) h =
    rw (ne→not_== (at + suc i) at (omega arith))
      (ap (store m (at + 1) bs) (omega arith) ∙ store_inside m (at + 1) bs i (omega arith))

-- Two memories that agree from `at` on have the same bytes there.
pub slice_ext :
    (m m' : Memory) (at n : ℕ) → ((a : ℕ) → at ≤ a → m a ≡ m' a) → slice m at n ≡ slice m' at n
slice_ext m m' at zero same = refl
slice_ext m m' at (suc n) same =
    rw (same at (omega arith), slice_ext m m' (at + 1) n λ a h. same a (omega arith)) refl

pub length-slice : (m : Memory) (at n : ℕ) → length (slice m at n) ≡ n
length-slice m at zero = refl
length-slice m at (suc n) = ap suc (length-slice m (at + 1) n)
