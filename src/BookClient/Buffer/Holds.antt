-- ===== src/BookClient/Buffer/Holds.antt =====
-- PCom3/buffer.c: the buffer as the list of the bytes added to it.
use pcom_assignments.Prelude.{
  ℕ, zero, suc, ◌+◌, ◌≤◌, ◌≡◌, refl, sym, ap, ◌∙◌, arith, List, [], ◌∷◌, ◌++◌, map, Option, none,
  some, lt→ltb, take, replicate, length, length-append, length-map, length-replicate, set-append,
}
use mathlib.Core.List.{append-nil, append_assoc}
use pcom_assignments.Prelude.Run.{done, Returns, returns}
use pcom_assignments.BookClient.Buffer.{Block, Buffer, buffer_init, realloc, copy, buffer_add}

-- The buffer is empty, or its block has exactly the bytes `xs`.
abbrev pub IsData : Option Block → List ℕ → Type 0
IsData none xs = xs ≡ []
IsData (some block) xs = block ≡ map some xs

pub record Collects (b : Buffer) (xs : List ℕ) : Type 0 where
  pub bytes : IsData b.block xs
  pub counted : b.size ≡ length xs

pub buffer_init-Collects : Collects buffer_init []
unfolding buffer_init
buffer_init-Collects = record { bytes = refl; counted = refl }

-- Copying behind the bytes `xs` into as many cells as there are to copy.
copy_lem :
    (xs ys : List ℕ) (slack : Block)
    → length slack ≡ length ys
    → copy (map some xs ++ slack) (length xs) ys ≡ done (map some (xs ++ ys))
copy_lem xs [] [] room = rw (append-nil (map some xs), append-nil xs) refl
copy_lem xs [] (c ∷ slack) room = absurd (omega arith)
copy_lem xs (y ∷ ys) [] room = absurd (omega arith)
copy_lem xs (y ∷ ys) (c ∷ slack) room =
    rw
      (
        lt→ltb (length xs) (length (map some xs ++ c ∷ slack))
            (omega (arith, length-append (map some xs) (c ∷ slack), length-map xs some)),
        set-append xs c slack y,
      )
      (ap (λ (n : ℕ). copy (map some (xs ++ y ∷ []) ++ slack) n ys)
          (omega (arith, length-append xs (y ∷ [])))
        ∙ copy_lem (xs ++ y ∷ []) ys slack (omega (arith, room))
        ∙ ap (λ (l : List ℕ). done (map some l)) (append_assoc xs (y ∷ []) ys))

take_all : (l : Block) (n : ℕ) → length l ≤ n → take n l ≡ l
take_all [] zero h = refl
take_all [] (suc n) h = refl
take_all (c ∷ l) zero h = absurd (omega arith)
take_all (c ∷ l) (suc n) h = ap (◌∷◌ c) (take_all l n (omega arith))

realloc_lem :
    (xs : List ℕ) (n : ℕ) → realloc (map some xs) (length xs + n) ≡ map some xs ++ replicate n none
realloc_lem xs n =
    let len = length-map xs some in
    rw (take_all (map some xs) (length xs + n) (omega (arith, len)))
      (ap (λ (k : ℕ). map some xs ++ replicate k none) (omega (arith, len)))

added_first :
    (b : Buffer) (ys : List ℕ)
    → b.block ≡ none
    → b.size ≡ 0
    → buffer_add b ys ≡ done (record { block = some (map some ys); size = length ys })
unfolding buffer_add
added_first b ys null empty =
    simp
      (
        null,
        empty,
        copy_lem [] ys (replicate (length ys) (some 0)) (length-replicate (length ys) (some 0)),
      )
      (ap (λ (n : ℕ). done (record { block = some (map some ys); size = n })) (omega arith))

added_later :
    (b : Buffer) (xs ys : List ℕ)
    → b.block ≡ some (map some xs)
    → b.size ≡ length xs
    → buffer_add b ys
      ≡ done (record { block = some (map some (xs ++ ys)); size = length xs + length ys })
unfolding buffer_add
added_later b xs ys at counted = simp (
  at,
  counted,
  realloc_lem xs (length ys),
  copy_lem xs ys (replicate (length ys) none) (length-replicate (length ys) none),
)

-- `buffer_add` never writes out of its block, and appends the bytes.
pub buffer_add-Collects :
    (b : Buffer) (xs ys : List ℕ)
    → Collects b xs
    → Returns (λ b'. Collects b' (xs ++ ys)) (buffer_add b ys)
buffer_add-Collects b xs ys v = by_block b.block refl
  where
    by_block :
        (p : Option Block) → b.block ≡ p → Returns (λ b'. Collects b' (xs ++ ys)) (buffer_add b ys)
    by_block none at =
        let nil : xs ≡ [] = rw at at v.bytes in
        rw (nil, added_first b ys at (v.counted ∙ ap length nil))
          (returns (record { bytes = refl; counted = refl }))
    by_block (some block) at =
        let full : block ≡ map some xs = rw at at v.bytes in
        rw (added_later b xs ys (at ∙ ap some full) v.counted)
          (returns (record { bytes = refl; counted = sym (length-append xs ys) }))
