-- ===== src/Prelude/Texts.antt =====
-- Texts as lists of character codes, C strings in arrays of bytes, and maps with keys of texts.
use Prim.Native.Char.{code}
use Prim.Native.String.{String}
use mathlib.Core.Logic.{◌↔◌, ◌≢◌}
use pcom_assignments.Prelude.Tests.{ltb, ◌==◌, if◌then◌else◌, Bool-cases}
use pcom_assignments.Prelude.Lists.{length}
use Prim.Native.Nat.{ℕ, zero, suc, ◌-◌, ◌≤◌, ◌<◌}
use mathlib.Core.Path.{◌≡◌, refl, ap, ◌∙◌}
use mathlib.Core.Bool.{Bool, true, false, ◌&&◌, ◌||◌}
use mathlib.Core.Option.{Option, none, some}
use mathlib.Core.List.{List, [], ◌∷◌, ◌++◌}
use mathlib.Core.Logic.{inl, inr}
use native.Mathlib.Omega.{arith}

abbrev pub Text : Type 0
Text = List ℕ

abbrev pub text : String → Text
text String.[] = []
text (String.◌∷◌ c s) = code c ∷ text s

-- The string at the start of an array, up to the first NUL character or the end.
abbrev pub cstr : List ℕ → Text
cstr [] = []
cstr (b ∷ bs) = if b == 0 then [] else b ∷ cstr bs

-- An array of `n` zeroed bytes, behind a copy of the first `n` of the given ones.
abbrev pub fit : (n : ℕ) → List ℕ → List ℕ
fit zero bs = []
fit (suc n) [] = 0 ∷ fit n []
fit (suc n) (b ∷ bs) = b ∷ fit n bs

-- `strncmp(s, prefix, strlen(prefix)) == 0`
abbrev pub starts_with : (prefix s : Text) → Bool
starts_with [] s = true
starts_with (c ∷ prefix) [] = false
starts_with (c ∷ prefix) (d ∷ s) = c == d && starts_with prefix s

-- `strstr`: the rest of the text from the first occurrence on.
abbrev pub strstr : (s pattern : Text) → Option Text
strstr [] pattern = if starts_with pattern [] then some [] else none
strstr (c ∷ s) pattern = if starts_with pattern (c ∷ s) then some (c ∷ s) else strstr s pattern

abbrev pub eq_text : Text → Text → Bool
eq_text [] [] = true
eq_text [] (d ∷ t) = false
eq_text (c ∷ s) [] = false
eq_text (c ∷ s) (d ∷ t) = c == d && eq_text s t

pub eq_text_refl : (s : Text) → eq_text s s ≡ true
eq_text_refl [] = refl
eq_text_refl (c ∷ s) = ground (arith, eq_text_refl s)

pub eq_text_iff : (s t : Text) → (eq_text s t ≡ true) ↔ (s ≡ t)
eq_text_iff s t = (to s t, (λ e. rw e (eq_text_refl t)))
  where
    to : (s t : Text) → eq_text s t ≡ true → s ≡ t
    to [] [] e = refl
    to [] (d ∷ t) e = absurd cc
    to (c ∷ s) [] e = absurd cc
    to (c ∷ s) (d ∷ t) e = ground (arith, e, to s t)

-- `isspace`
abbrev pub is_space : ℕ → Bool
is_space c = c == 32 || (ltb 8 c && ltb c 14)

abbrev pub skip_spaces : Text → Text
skip_spaces [] = []
skip_spaces (c ∷ s) = if is_space c then skip_spaces s else c ∷ s

pub ne→not_eq_text : (s t : Text) → s ≢ t → eq_text s t ≡ false
ne→not_eq_text s t ne = elim (Bool-cases (eq_text s t)) [
  | inl same ↦ absurd (ne ((eq_text_iff s t).0 same))
  | inr other ↦ other
]

-- No NUL character.
abbrev pub IsString : List ℕ → Type 0
IsString [] = Unit {0}
IsString (c ∷ s) = (0 < c) × IsString s

pub cstr_ended : (s rest : List ℕ) → IsString s → cstr (s ++ 0 ∷ rest) ≡ s
cstr_ended [] rest h = refl
cstr_ended (c ∷ s) rest h = ground (arith, h.0, cstr_ended s rest h.1)

pub cstr_whole : (s : List ℕ) → IsString s → cstr s ≡ s
cstr_whole [] h = refl
cstr_whole (c ∷ s) h = ground (arith, h.0, cstr_whole s h.1)

-- The string of some bytes is a string.
pub cstr-IsString : (bs : List ℕ) → IsString (cstr bs)
cstr-IsString [] = tt
cstr-IsString (b ∷ bs) = elim (Bool-cases (b == 0)) [
  | inl zero_byte ↦ rw zero_byte tt
  | inr other ↦ rw other ((ground (arith, other)), cstr-IsString bs)
]

pub length-fit : (n : ℕ) (bs : List ℕ) → length (fit n bs) ≡ n
length-fit zero bs = refl
length-fit (suc n) [] = ap suc (length-fit n [])
length-fit (suc n) (b ∷ bs) = ap suc (length-fit n bs)

-- An array holds what was copied into it, and zeros behind.
pub fit_append : (n : ℕ) (bs : List ℕ) → length bs ≤ n → fit n bs ≡ bs ++ fit (n - length bs) []
fit_append n [] h = ap (λ (k : ℕ). fit k []) (omega arith)
fit_append zero (b ∷ bs) h = absurd (omega arith)
fit_append (suc n) (b ∷ bs) h =
    ap (◌∷◌ b) (fit_append n bs (omega arith) ∙ ap (λ (k : ℕ). bs ++ fit k []) (omega arith))

-- `std::unordered_map`, as a function; `none` where there is no entry.
module _ {K V : Type 0} (eq : K → K → Bool) where
  abbrev pub insert_or_assign : K → V → (K → Option V) → K → Option V
  insert_or_assign k v m j = if eq k j then some v else m j

  abbrev pub erase : K → (K → Option V) → K → Option V
  erase k m j = if eq k j then none else m j
