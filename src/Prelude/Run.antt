-- ===== src/Prelude/Run.antt =====
-- The outcome of C code: a value, or one of the faults that C leaves undefined.
use pcom_assignments.Prelude.{◌≡◌, refl, Bool, true, false, if◌then◌else◌, Option, none, some}

pub data Fault : Type 0 where
  out_of_bounds uninitialised null_pointer use_after_free assertion overflow out_of_fuel : Fault

pub data Run {ℓ} (A : Type ℓ) : Type ℓ where
  done : A → Run A
  fault : Fault → Run A

infixl 5 ◌>>=◌
abbrev pub ◌>>=◌ {ℓ κ} : {A : Type ℓ} {B : Type κ} → Run A → (A → Run B) → Run B
done a >>= f = f a
fault e >>= f = fault e

-- A value that must be there.
abbrev pub require {ℓ} : {A : Type ℓ} → Fault → Option A → Run A
require e none = fault e
require e (some a) = done a

-- The run ends with a value that satisfies `P`.
pub data Returns {ℓ} {A : Type ℓ} (P : A → Type 0) : Run A → Type ℓ where
  returns : {a : A} → P a → Returns P (done a)

module _ {ℓ} {A : Type ℓ} {P : A → Type 0} where
  pub Returns-mono :
      {Q : A → Type 0} {r : Run A} → Returns P r → ((a : A) → P a → Q a) → Returns Q r
  Returns-mono (returns p) f = returns (f _ p)

  -- The rule for a bind.
  pub Returns->>= {κ} :
      {B : Type κ} {Q : B → Type 0} {r : Run A} {f : A → Run B}
      → Returns P r
      → ((a : A) → P a → Returns Q (f a))
      → Returns Q (r >>= f)
  Returns->>= (returns p) next = next _ p

  -- The value that a run returns.
  pub Returns-eq : {r : Run A} → Returns P r → (a : A) × (r ≡ done a) × P a
  Returns-eq (returns p) = (_, refl, p)

  -- What holds of the value that a run is known to return.
  pub Returns-done : {a : A} → Returns P (done a) → P a
  Returns-done (returns p) = p

pub Returns-both {ℓ} :
    {A : Type ℓ} {P Q : A → Type 0} {r : Run A}
    → Returns P r
    → Returns Q r
    → Returns (λ a. P a × Q a) r
Returns-both (returns p) q = returns (p, Returns-done q)

-- If the run ends with a value, that satisfies `P`.
pub data Whenever {ℓ} {A : Type ℓ} (P : A → Type 0) : Run A → Type ℓ where
  whenever : {a : A} → P a → Whenever P (done a)
  faulted : {e : Fault} → Whenever P (fault e)

pub Whenever-done {ℓ} : {A : Type ℓ} {P : A → Type 0} {a : A} → Whenever P (done a) → P a
Whenever-done (whenever p) = p

pub Whenever->>= {ℓ κ} :
    {A : Type ℓ} {B : Type κ} {Q : B → Type 0} (r : Run A) {f : A → Run B}
    → ((a : A) → Whenever Q (f a))
    → Whenever Q (r >>= f)
Whenever->>= (done a) next = next a
Whenever->>= (fault e) next = faulted

-- The rule for a bind whose first run ends only with values that satisfy `P`.
pub Whenever-then {ℓ κ} :
    {A : Type ℓ} {B : Type κ} {P : A → Type 0} {Q : B → Type 0} {r : Run A} {f : A → Run B}
    → Whenever P r
    → ((a : A) → P a → Whenever Q (f a))
    → Whenever Q (r >>= f)
Whenever-then (whenever p) next = next _ p
Whenever-then faulted next = faulted

module _ {ℓ} {A : Type ℓ} {P : A → Type 0} where
  pub Whenever-mono :
      {Q : A → Type 0} {r : Run A} → Whenever P r → ((a : A) → P a → Q a) → Whenever Q r
  Whenever-mono (whenever p) f = whenever (f _ p)
  Whenever-mono faulted f = faulted

  pub Whenever-if :
      (b : Bool) {x y : Run A}
      → (b ≡ true → Whenever P x)
      → (b ≡ false → Whenever P y)
      → Whenever P (if b then x else y)
  Whenever-if true f g = f refl
  Whenever-if false f g = g refl

pub Returns-Whenever {ℓ} :
    {A : Type ℓ} {P Q : A → Type 0} {r : Run A}
    → Returns P r
    → Whenever Q r
    → Returns (λ a. P a × Q a) r
Returns-Whenever (returns p) w = returns (p, Whenever-done w)
