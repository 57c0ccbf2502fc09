-- ===== src/Base/Tests.antt =====
-- Boolean tests, the conditional, and equality as an interface.
use Prim.Native.Nat.{ℕ, ◌≤◌, ◌<◌, suc, compare, Ordering}
use Prim.Native.String.{String}
use mathlib.Core.Path.{◌≡◌, refl}
use mathlib.Core.Logic.{◌↔◌, ◌⊎◌, inl, inr, ◌≢◌}
use mathlib.Core.Bool.{◌&&◌, Bool, true, false}
use mathlib.Core.Option.{Option, none, some}
use native.Mathlib.Omega.{arith}
use text.Mathlib.Text.{◌==◌ as str_beq}
use text.Mathlib.TextEquality.{eq_iff}

abbrev pub ltb : ℕ → ℕ → Bool
ltb a b = elim (compare a b) [ Ordering.lt ↦ true | _ ↦ false ]

abbrev pub leb : ℕ → ℕ → Bool
leb a b = elim (compare a b) [ Ordering.gt ↦ false | _ ↦ true ]

abbrev pub nat_beq : ℕ → ℕ → Bool
nat_beq a b = elim (compare a b) [ Ordering.eq ↦ true | _ ↦ false ]

infix 1 if◌then◌else◌
abbrev pub if◌then◌else◌ {ℓ} : {A : Type ℓ} → Bool → A → A → A
if true then x else y = x
if false then x else y = y

pub ltb→lt : (a b : ℕ) → ltb a b ≡ true → a < b
ltb→lt a b h = ground arith

pub lt→ltb : (a b : ℕ) → a < b → ltb a b ≡ true
lt→ltb a b h = ground arith

pub le→ltb : (a b : ℕ) → a ≤ b → ltb b a ≡ false
le→ltb a b h = ground arith

pub ltb-false→le : (a b : ℕ) → ltb a b ≡ false → b ≤ a
ltb-false→le a b h = ground arith

pub leb→le : (a b : ℕ) → leb a b ≡ true → a ≤ b
leb→le a b h = ground arith

pub nat_beq_iff : (a b : ℕ) → (nat_beq a b ≡ true) ↔ (a ≡ b)
nat_beq_iff a b = ground arith

pub ruleset tests = (arith, ltb→lt, lt→ltb, leb→le)

pub Bool-cases : (b : Bool) → (b ≡ true) ⊎ (b ≡ false)
Bool-cases true = inl refl
Bool-cases false = inr refl

pub both : (a b : Bool) → (a && b) ≡ true → (a ≡ true) × (b ≡ true)
both true b e = (refl, e)
both false b e = cc e

pub Option-cases {ℓ} : {A : Type ℓ} (o : Option A) → (o ≡ none) ⊎ ((a : A) × (o ≡ some a))
Option-cases none = inl refl
Option-cases (some a) = inr (a, refl)

abbrev pub is_some {ℓ} : {A : Type ℓ} → Option A → Bool
is_some none = false
is_some (some a) = true

-- Rust's `?` on an option.
infixl 10 ◌>>=◌
abbrev pub ◌>>=◌ {ℓ κ} : {A : Type ℓ} {B : Type κ} → Option A → (A → Option B) → Option B
none >>= f = none
some a >>= f = f a

-- Rust's `Eq`, as keys and names need it: a test that decides equality.
pub record HasEq {ℓ} (K : Type ℓ) : Type ℓ where
  pub eqb : K → K → Bool
  pub eqb_iff : (j k : K) → (eqb j k ≡ true) ↔ (j ≡ k)

instance abbrev pub text_keys : HasEq String
text_keys = record { eqb = str_beq; eqb_iff = eq_iff }

instance abbrev pub number_keys : HasEq ℕ
number_keys = record { eqb = nat_beq; eqb_iff = nat_beq_iff }

infix 50 ◌==◌
abbrev pub ◌==◌ {ℓ} : {K : Type ℓ} ⦃h : HasEq K⦄ → K → K → Bool
◌==◌ ⦃h⦄ j k = h.eqb j k

pub beq_refl {ℓ} : {A : Type ℓ} ⦃e : HasEq A⦄ (a : A) → (a == a) ≡ true
beq_refl ⦃e⦄ a = (e.eqb_iff a a).1 refl

pub beq_ne {ℓ} : {A : Type ℓ} ⦃e : HasEq A⦄ (a b : A) → a ≢ b → (a == b) ≡ false
beq_ne ⦃e⦄ a b h = elim (Bool-cases (e.eqb a b)) [
  | inl t ↦ absurd (h ((e.eqb_iff a b).0 t))
  | inr f ↦ f
]

-- Equal or not, with the result of the test.
pub beq_cases {ℓ} :
    {A : Type ℓ} ⦃e : HasEq A⦄ (a b : A)
    → (((a == b) ≡ true) × (a ≡ b)) ⊎ (((a == b) ≡ false) × (a ≢ b))
beq_cases ⦃e⦄ a b = elim (Bool-cases (e.eqb a b)) [
  | inl t ↦ inl (t, (e.eqb_iff a b).0 t)
  | inr f ↦ inr (f, λ p. cc ((e.eqb_iff a b).1 p))
]

-- Rust's `Result<A, E>`.
pub data Result {ℓ κ} (E : Type κ) (A : Type ℓ) : Type (ℓ ⊔ κ) where
  ok : A → Result E A
  err : E → Result E A

pub Result-cases {ℓ κ} :
    {E : Type κ} {A : Type ℓ} (r : Result E A) → ((a : A) × (r ≡ ok a)) ⊎ ((e : E) × (r ≡ err e))
Result-cases (ok a) = inl (a, refl)
Result-cases (err e) = inr (e, refl)

abbrev pub u32_max : ℕ
u32_max = 4294967295

-- `u32::saturating_add(1)`.
abbrev pub saturating_suc : ℕ → ℕ
saturating_suc n = if ltb n u32_max then suc n else u32_max

-- What a result says of the tests and the steps before it.
pub passed_not {ℓ} :
    {A : Type ℓ} {x : A} (b : Bool) (y : Option A)
    → (if b then none else y) ≡ some x
    → (b ≡ false) × (y ≡ some x)
passed_not true y e = cc
passed_not false y e = (refl, e)

pub passed {ℓ} :
    {A : Type ℓ} {x : A} (b : Bool) (y : Option A)
    → (if b then y else none) ≡ some x
    → (b ≡ true) × (y ≡ some x)
passed true y e = (refl, e)
passed false y e = cc

pub went_on {ℓ κ} :
    {A : Type ℓ} {B : Type κ} {x : B} (o : Option A) (f : A → Option B)
    → (o >>= f) ≡ some x
    → (a : A) × (o ≡ some a) × (f a ≡ some x)
went_on none f e = cc
went_on (some a) f e = (a, refl, e)
