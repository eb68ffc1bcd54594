-- ===== src/Base/Tests.antt =====
-- Boolean tests on native numbers, the conditional, and outcomes of code that can panic.
use Prim.Native.Nat.{ℕ, ◌≤◌, ◌<◌, compare, Ordering}
use mathlib.Core.Path.{◌≡◌, refl}
use mathlib.Core.Logic.{◌≢◌, ◌↔◌, ◌⊎◌, inl, inr}
use mathlib.Core.Bool.{Bool, true, false}
use mathlib.Core.Option.{Option, none, some}
use native.Mathlib.Omega.{arith}

abbrev pub ltb : ℕ → ℕ → Bool
ltb a b = elim (compare a b) [ Ordering.lt ↦ true | _ ↦ false ]

abbrev pub leb : ℕ → ℕ → Bool
leb a b = elim (compare a b) [ Ordering.gt ↦ false | _ ↦ true ]

infix 50 ◌==◌
abbrev pub ◌==◌ : ℕ → ℕ → Bool
a == b = elim (compare a b) [ Ordering.eq ↦ true | _ ↦ false ]

infix 1 if◌then◌else◌
abbrev pub if◌then◌else◌ {ℓ} : {A : Type ℓ} → Bool → A → A → A
if true then x else y = x
if false then x else y = y

pub Bool-cases : (b : Bool) → (b ≡ true) ⊎ (b ≡ false)
Bool-cases true = inl refl
Bool-cases false = inr refl

pub Option-cases {ℓ} : {A : Type ℓ} (o : Option A) → (o ≡ none) ⊎ ((a : A) × (o ≡ some a))
Option-cases none = inl refl
Option-cases (some a) = inr (a, refl)

pub ltb→lt : (a b : ℕ) → ltb a b ≡ true → a < b
ltb→lt a b h = ground arith

pub leb→le : (a b : ℕ) → leb a b ≡ true → a ≤ b
leb→le a b h = ground arith

pub not_leb→lt : (a b : ℕ) → leb a b ≡ false → b < a
not_leb→lt a b h = ground arith

pub not_ltb→le : (a b : ℕ) → ltb a b ≡ false → b ≤ a
not_ltb→le a b h = ground arith

pub ==_iff : (a b : ℕ) → ((a == b) ≡ true) ↔ (a ≡ b)
==_iff a b = ground arith

pub ==_ne : (a b : ℕ) → a ≢ b → (a == b) ≡ false
==_ne a b h = ground arith

abbrev pub is_none {ℓ} : {A : Type ℓ} → Option A → Bool
is_none none = true
is_none (some a) = false

abbrev pub is_some {ℓ} : {A : Type ℓ} → Option A → Bool
is_some none = false
is_some (some a) = true

-- Code that can panic (a failed `assert!`, an `unwrap` of `None`) returns an option: `none` is
-- the panic.
abbrev pub Panics : Type 0 → Type 0
Panics A = Option A

infixl 5 ◌>>=◌ ◌>>◌
abbrev pub ◌>>=◌ : {A B : Type 0} → Panics A → (A → Panics B) → Panics B
none >>= f = none
some a >>= f = f a

abbrev pub ◌>>◌ : {B : Type 0} → Panics (Unit {0}) → Panics B → Panics B
m >> k = m >>= λ _. k

-- `assert!`
abbrev pub assert : Bool → Panics (Unit {0})
assert true = some tt
assert false = none

-- The code does not panic, and its result has the property.
abbrev pub Returns : {A : Type 0} → (A → Type 0) → Panics A → Type 0
Returns P none = ⊥
Returns P (some a) = P a

pub Returns->>= :
    {A B : Type 0} {P : A → Type 0} (Q : B → Type 0) (m : Panics A) (f : A → Panics B)
    → Returns P m
    → ((a : A) → P a → Returns Q (f a))
    → Returns Q (m >>= f)
Returns->>= Q none f h k = absurd h
Returns->>= Q (some a) f h k = k a h

pub Returns-mono :
    {A : Type 0} (P Q : A → Type 0) (m : Panics A)
    → Returns P m
    → ((a : A) → P a → Q a)
    → Returns Q m
Returns-mono P Q none h k = h
Returns-mono P Q (some a) h k = k a h

-- The result of code that returns.
pub Returns-cases :
    {A : Type 0} (P : A → Type 0) (m : Panics A) → Returns P m → (a : A) × (m ≡ some a) × P a
Returns-cases P none h = absurd h
Returns-cases P (some a) h = (a, refl, h)

pub ltb_irrefl : (a : ℕ) → ltb a a ≡ false
ltb_irrefl a = ground arith
