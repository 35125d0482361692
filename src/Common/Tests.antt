-- ===== src/Common/Tests.antt =====
-- Boolean tests on the native numbers and on texts, behind one interface of equality.
use Prim.Native.Nat.{ℕ, ◌≤◌, ◌<◌, compare, Ordering}
use Prim.Native.String.{String}
use mathlib.Core.Path.{◌≡◌, refl}
use mathlib.Core.Logic.{◌↔◌, ◌⊎◌, inl, inr}
use mathlib.Core.Bool.{Bool, true, false}
use mathlib.Core.Option.{Option, none, some}
use native.Mathlib.Omega.{arith}
use text.Mathlib.Text.{◌==◌ as str_eq}
use text.Mathlib.TextEquality.{eq_iff}

abbrev pub ltb : ℕ → ℕ → Bool
ltb a b = elim (compare a b) [ Ordering.lt ↦ true | _ ↦ false ]

abbrev pub leb : ℕ → ℕ → Bool
leb a b = elim (compare a b) [ Ordering.gt ↦ false | _ ↦ true ]

abbrev pub nat_eq : ℕ → ℕ → Bool
nat_eq a b = elim (compare a b) [ Ordering.eq ↦ true | _ ↦ false ]

infix 1 if◌then◌else◌
abbrev pub if◌then◌else◌ {ℓ} : {A : Type ℓ} → Bool → A → A → A
if true then x else y = x
if false then x else y = y

pub ltb→lt : (a b : ℕ) → ltb a b ≡ true → a < b
ltb→lt a b h = ground arith

pub lt→ltb : (a b : ℕ) → a < b → ltb a b ≡ true
lt→ltb a b h = ground arith

pub leb→le : (a b : ℕ) → leb a b ≡ true → a ≤ b
leb→le a b h = ground arith

pub le→leb : (a b : ℕ) → a ≤ b → leb a b ≡ true
le→leb a b h = ground arith

pub nat_eq_iff : (a b : ℕ) → (nat_eq a b ≡ true) ↔ (a ≡ b)
nat_eq_iff a b = ground arith

pub Bool-cases : (b : Bool) → (b ≡ true) ⊎ (b ≡ false)
Bool-cases true = inl refl
Bool-cases false = inr refl

pub Option-cases {ℓ} : {A : Type ℓ} (o : Option A) → (o ≡ none) ⊎ ((a : A) × (o ≡ some a))
Option-cases none = inl refl
Option-cases (some a) = inr (a, refl)

-- Keys that the source compares with `===`.
pub record Eq {ℓ} (K : Type ℓ) : Type ℓ where
  pub agree : (left right : K) → Bool
  pub agree_iff : (left right : K) → (agree left right ≡ true) ↔ (left ≡ right)

infix 50 ◌==◌
abbrev pub ◌==◌ {ℓ} : {K : Type ℓ} ⦃keys : Eq K⦄ → K → K → Bool
◌==◌ ⦃keys⦄ = keys.agree

instance abbrev pub nat_Eq : Eq ℕ
nat_Eq = record { agree = nat_eq; agree_iff = nat_eq_iff }

instance abbrev pub string_Eq : Eq String
string_Eq = record { agree = str_eq; agree_iff = eq_iff }

-- A case distinction on an option, and what holds of it.
module _ {ℓ κ} {A : Type ℓ} {B : Type κ} where
  abbrev pub maybe : B → (A → B) → Option A → B
  maybe b f none = b
  maybe b f (some a) = f a

  pub maybe_lem {μ} :
      (P : B → Type μ) (b : B) (f : A → B) (o : Option A)
      → (o ≡ none → P b)
      → ((a : A) → o ≡ some a → P (f a))
      → P (maybe b f o)
  maybe_lem P b f none h k = h refl
  maybe_lem P b f (some a) h k = k a refl

pub if_lem {ℓ κ} :
    {A : Type ℓ} (P : A → Type κ) (c : Bool) (x y : A)
    → (c ≡ true → P x)
    → (c ≡ false → P y)
    → P (if c then x else y)
if_lem P true x y h k = h refl
if_lem P false x y h k = k refl
