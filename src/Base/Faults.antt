-- ===== src/Base/Faults.antt =====
-- A computation of the C program that may be undefined. `none` is a fault: an access outside the
-- memory area that a pointer names, or an `int` out of range.
use Prim.Native.Nat.{ℕ, ◌^◌}
use mathlib.Core.Path.{◌≡◌, refl, subst}
use mathlib.Core.Bool.{Bool, true, false}
use mathlib.Core.Option.{Option, none, some}
use kindle_myts.Base.Tests.{ltb, if◌then◌else◌}

infixl 5 ◌>>=◌ ◌>>◌
abbrev pub ◌>>=◌ {ℓ κ} : {A : Type ℓ} {B : Type κ} → Option A → (A → Option B) → Option B
none >>= f = none
some a >>= f = f a

abbrev pub ◌>>◌ {ℓ} : {B : Type ℓ} → Option (Unit {0}) → Option B → Option B
m >> k = m >>= λ _. k

abbrev pub require : Bool → Option (Unit {0})
require true = some tt
require false = none

-- One more than the greatest `int`.
abbrev pub int_limit : ℕ
int_limit = 2 ^ 31

-- The value of an `int` expression that is not negative.
abbrev pub int_value : ℕ → Option ℕ
int_value n = if ltb n int_limit then some n else none

pub >>=-eq-some {ℓ κ} :
    {A : Type ℓ} {B : Type κ} (m : Option A) (f : A → Option B) {b : B}
    → (m >>= f) ≡ some b
    → (a : A) × (m ≡ some a) × (f a ≡ some b)
>>=-eq-some (some a) f h = (a, refl, h)
>>=-eq-some none f h = cc

-- What holds of the result of a computation that is known not to fault.
abbrev pub Returns {ℓ κ} : {A : Type ℓ} → Option A → (A → Type κ) → Type (ℓ ⊔ κ)
Returns {A = A} m P = (a : A) × (m ≡ some a) × P a

-- A branch that returns at once.
pub returns_if {ℓ κ} :
    {A : Type ℓ} (P : A → Type κ) (b : Bool) (x : A) (m : Option A)
    → P x
    → Returns m P
    → Returns (if b then some x else m) P
returns_if P true x m p r = (x, refl, p)
returns_if P false x m p r = r

pub returns_either {ℓ κ} :
    {A : Type ℓ} (P : A → Type κ) (b : Bool) (l m : Option A)
    → Returns l P
    → Returns m P
    → Returns (if b then l else m) P
returns_either P true l m p q = p
returns_either P false l m p q = q

-- A branch, with what its test says.
pub returns_test {ℓ κ} :
    {A : Type ℓ} (P : A → Type κ) (b : Bool) (l m : Option A)
    → (b ≡ true → Returns l P)
    → (b ≡ false → Returns m P)
    → Returns (if b then l else m) P
returns_test P true l m p q = p refl
returns_test P false l m p q = q refl

pub returns_bind {ℓ κ μ ν} :
    {A : Type ℓ} {B : Type κ} (P : A → Type μ) (Q : B → Type ν) (m : Option A) (f : A → Option B)
    → Returns m P
    → ((a : A) → P a → Returns (f a) Q)
    → Returns (m >>= f) Q
returns_bind P Q m f (a, e, p) k = let (b, e', q) = k a p in (b, rw e e', q)

-- What a computation is known to return, at the value that it returned.
pub returns_value {ℓ κ} :
    {A : Type ℓ} (P : A → Type κ) {m : Option A} {b : A} → Returns m P → m ≡ some b → P b
returns_value P {b} (a, e, p) e' = let q : a ≡ b = cc in subst P q p

-- What follows from the result of either branch follows from the result of the test.
pub from_either {ℓ κ} :
    {A : Type ℓ} {P : Type κ} {r : A} (b : Bool) (l m : Option A)
    → (l ≡ some r → P)
    → (m ≡ some r → P)
    → (if b then l else m) ≡ some r
    → P
from_either true l m p q e = p e
from_either false l m p q e = q e
