-- ===== src/PubSub/Subscriber/Arrays.antt =====
-- PCom2/subscriber.cpp: the copies between arrays of bytes, and the strings in them.
use pcom_assignments.Prelude.{
  ℕ, zero, suc, ◌+◌, ◌-◌, ◌≤◌, ◌<◌, ◌≡◌, refl, ap, ◌∙◌, inl, inr, arith, List, [], ◌∷◌, ◌++◌, ◌==◌,
  ltb, length, get_or, take, drop, Bool-cases,
}
use pcom_assignments.Prelude.Texts.{fit, cstr}
use pcom_assignments.PubSub.Client.{string_size}

module _ {A : Type 0} where
  pub take-append : (xs ys : List A) → take (length xs) (xs ++ ys) ≡ xs
  take-append [] ys = refl
  take-append (x ∷ xs) ys = ap (◌∷◌ x) (take-append xs ys)

  pub drop-append : (xs ys : List A) (y : A) → drop (suc (length xs)) (xs ++ y ∷ ys) ≡ ys
  drop-append [] ys y = refl
  drop-append (x ∷ xs) ys y = drop-append xs ys y

  pub get_or-append : (xs ys : List A) (y d : A) → get_or (xs ++ y ∷ ys) (length xs) d ≡ y
  get_or-append [] ys y d = refl
  get_or-append (x ∷ xs) ys y d = get_or-append xs ys y d

pub take_all : (n : ℕ) (xs : List ℕ) → length xs ≤ n → take n xs ≡ xs
take_all zero [] h = refl
take_all zero (x ∷ xs) h = absurd (omega arith)
take_all (suc n) [] h = refl
take_all (suc n) (x ∷ xs) h = ap (◌∷◌ x) (take_all n xs (omega arith))

pub length-take_le : {A : Type 0} (n : ℕ) (xs : List A) → n ≤ length xs → length (take n xs) ≡ n
length-take_le zero xs h = refl
length-take_le (suc n) [] h = absurd (omega arith)
length-take_le (suc n) (x ∷ xs) h = ap suc (length-take_le n xs (omega arith))

pub fit-append :
    (n : ℕ) (xs : List ℕ) (y : ℕ) (ys : List ℕ)
    → length xs ≤ n
    → fit (suc n) (xs ++ y ∷ ys) ≡ xs ++ y ∷ fit (n - length xs) ys
fit-append n [] y ys h = ap (λ (k : ℕ). y ∷ fit k ys) (omega arith)
fit-append zero (x ∷ xs) y ys h = absurd (omega arith)
fit-append (suc n) (x ∷ xs) y ys h =
    ap (◌∷◌ x)
      (fit-append n xs y ys (omega arith) ∙ ap (λ (k : ℕ). xs ++ y ∷ fit k ys) (omega arith))

pub take-fit : (n : ℕ) (xs : List ℕ) → length xs ≤ n → take (length xs) (fit n xs) ≡ xs
take-fit n [] h = refl
take-fit zero (x ∷ xs) h = absurd (omega arith)
take-fit (suc n) (x ∷ xs) h = ap (◌∷◌ x) (take-fit n xs (omega arith))

-- The string of an array is not longer than that.
pub cstr_le : (xs : List ℕ) → length (cstr xs) ≤ length xs
cstr_le [] = omega arith
cstr_le (b ∷ xs) = ground (arith, cstr_le xs)

-- A string that ends in its array is not changed by what is behind the array.
pub cstr-append : (xs ys : List ℕ) → length (cstr xs) < length xs → cstr (xs ++ ys) ≡ cstr xs
cstr-append [] ys h = absurd (omega arith)
cstr-append (b ∷ xs) ys h = elim (Bool-cases (b == 0)) [
  | inl ends ↦ rw ends refl
  | inr other ↦
      let h' : suc (length (cstr xs)) < suc (length xs) = rw other at h in
      rw other (ap (◌∷◌ b) (cstr-append xs ys (omega (arith, h'))))
]

-- It survives when only it and its NUL character are copied.
pub cstr-take :
    (n : ℕ) (xs : List ℕ)
    → length (cstr xs) < length xs
    → length (cstr xs) < n
    → cstr (fit n (take (suc (length (cstr xs))) xs)) ≡ cstr xs
cstr-take n [] h fits = absurd (omega arith)
cstr-take zero (b ∷ xs) h fits = absurd (omega arith)
cstr-take (suc n) (b ∷ xs) h fits = elim (Bool-cases (b == 0)) [
  | inl ends ↦ rw ends refl
  | inr other ↦
      let h' : suc (length (cstr xs)) < suc (length xs) = rw other at h in
      let fits' : suc (length (cstr xs)) < suc n = rw other at fits in
      rw other (ap (◌∷◌ b) (cstr-take n xs (omega (arith, h')) (omega (arith, fits'))))
]

pub fit_all : (n : ℕ) (xs : List ℕ) → length xs ≡ n → fit n xs ≡ xs
fit_all zero [] h = refl
fit_all (suc n) [] h = absurd (omega arith)
fit_all zero (x ∷ xs) h = absurd (omega arith)
fit_all (suc n) (x ∷ xs) h = ap (◌∷◌ x) (fit_all n xs (omega arith))

pub fit-take_all : (n : ℕ) (xs : List ℕ) → length xs ≡ n → fit n (take n xs) ≡ xs
fit-take_all zero [] h = refl
fit-take_all (suc n) [] h = absurd (omega arith)
fit-take_all zero (x ∷ xs) h = absurd (omega arith)
fit-take_all (suc n) (x ∷ xs) h = ap (◌∷◌ x) (fit-take_all n xs (omega arith))

zeros_lem : (n k : ℕ) → get_or (fit n []) k 0 ≡ 0
zeros_lem zero k = refl
zeros_lem (suc n) zero = refl
zeros_lem (suc n) (suc k) = zeros_lem n k

pub get_or-fit :
    (n c k : ℕ) (xs : List ℕ) → k < c → c ≤ n → get_or (fit n (take c xs)) k 0 ≡ get_or xs k 0
get_or-fit zero c k xs h fits = absurd (omega arith)
get_or-fit (suc n) zero k xs h fits = absurd (omega arith)
get_or-fit (suc n) (suc c) k [] h fits = zeros_lem (suc n) k
get_or-fit (suc n) (suc c) zero (x ∷ xs) h fits = refl
get_or-fit (suc n) (suc c) (suc k) (x ∷ xs) h fits = get_or-fit n c k xs (omega arith) (omega arith)

suc_lem : (n : ℕ) → n + 1 ≡ suc n
suc_lem n = omega arith

-- The string of a whole array, cut to its size.
pub string_lem :
    (n : ℕ) (xs : List ℕ)
    → length xs ≡ n
    → cstr (fit n (take (string_size n (cstr xs)) xs)) ≡ cstr xs
string_lem n xs same = elim (Bool-cases (ltb (length (cstr xs)) n)) [
  | inl ends ↦ rw ends (
      ap (λ (k : ℕ). cstr (fit n (take k xs))) (suc_lem (length (cstr xs)))
      ∙ cstr-take n xs (ground (arith, ends, same)) (ground (arith, ends)))
  | inr whole ↦ rw (whole, fit-take_all n xs same) refl
]
