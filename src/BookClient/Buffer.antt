-- ===== src/BookClient/Buffer.antt =====
-- PCom3/buffer.c: the buffer that collects the bytes of a response.
pub mod Holds
pub mod Find
use pcom_assignments.Prelude.{
  ℕ, zero, suc, ◌+◌, ◌-◌, List, [], ◌∷◌, ◌++◌, Bool, true, false, Option, none, some, ◌==◌, ltb,
  if◌then◌else◌, get_elem?, set, take, replicate, length,
}
use pcom_assignments.Prelude.Int.{ℤ, pos, negsuc, to_int}
use pcom_assignments.Prelude.Run.{
  Run, done, fault, null_pointer, out_of_bounds, uninitialised, ◌>>=◌, require,
}

-- An allocated block; a cell holds `none` until it is written.
abbrev pub Block : Type 0
Block = List (Option ℕ)

-- `none` is the NULL pointer.
pub record Buffer : Type 0 where
  pub block : Option Block
  pub size : ℕ

pub buffer_init : Buffer
buffer_init = record { block = none; size = 0 }

pub buffer_destroy : Buffer → Buffer
buffer_destroy b = record { block = none; size = 0 }

pub buffer_is_empty : Buffer → Bool
buffer_is_empty b = elim b.block [ none ↦ true | some cells ↦ false ]

-- `realloc` keeps what fits and leaves new cells uninitialised.
abbrev pub realloc : Block → ℕ → Block
realloc block n = take n block ++ replicate (n - length block) none

-- `memcpy` of bytes to the cells from `at` on.
abbrev pub copy : Block → (at : ℕ) → List ℕ → Run Block
copy block at [] = done block
copy block at (x ∷ xs) =
    let rest = copy (set block at (some x)) (at + 1) xs in
    if ltb at (length block) then rest else fault out_of_bounds

pub buffer_add : Buffer → List ℕ → Run Buffer
buffer_add b bytes = do
  let cells : Block = elim b.block [
    | some old ↦ realloc old (b.size + length bytes)
    | none ↦ replicate (length bytes) (some 0)
  ]
  cells' ← copy cells b.size bytes
  done (record { block = some cells'; size = b.size + length bytes })

-- `data[a]`
unfoldable pub cell : Option Block → ℕ → Run ℕ
cell p a = do
  block ← require null_pointer p
  c ← require out_of_bounds (get_elem? block a)
  require uninitialised c

-- The inner loop: whether it reaches the end of the pattern. `f` is what both characters go through
-- before they are compared.
unfoldable pub matches_from : (f : ℕ → ℕ) → Option Block → (a : ℕ) → List ℕ → Run Bool
matches_from f p a [] = done true
matches_from f p a (c ∷ pattern) = do
  x ← cell p a
  let rest = matches_from f p (a + 1) pattern
  if f x == f c then rest else done false

-- The outer loop from index `i`, with `left` rounds to go; `none` is behind the last round.
unfoldable pub find_from : (f : ℕ → ℕ) → Option Block → List ℕ → (left i : ℕ) → Run (Option ℕ)
find_from f p pattern zero i = done none
find_from f p pattern (suc left) i = do
  hit ← matches_from f p i pattern
  let rest = find_from f p pattern left (i + 1)
  if hit then done (some i) else rest

-- The index of the first hit, with `none` for no hit.
unfoldable pub find_index : (f : ℕ → ℕ) → Buffer → List ℕ → Run (Option ℕ)
unfolding find_from
find_index f b pattern =
    if ltb b.size (length pattern)
    then done none
    else find_from f b.block pattern (b.size - length pattern + 1) 0

-- The index, a `size_t`, is returned as an int.
abbrev pub as_int : Option ℕ → ℤ
as_int none = negsuc 0
as_int (some i) = to_int (pos i)

unfoldable pub buffer_find : Buffer → List ℕ → Run ℤ
buffer_find b pattern = do i ← find_index (λ c. c) b pattern; done (as_int i)

-- `tolower` is that of the C library.
unfoldable pub buffer_find_insensitive : (tolower : ℕ → ℕ) → Buffer → List ℕ → Run ℤ
buffer_find_insensitive tolower b pattern = do i ← find_index tolower b pattern; done (as_int i)
