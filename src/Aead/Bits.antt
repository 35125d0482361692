-- ===== src/Aead/Bits.antt =====
-- Laws of `^` and `|` on natural numbers, by the lowest binary digit, for chacha20poly1305.ts.
use Prim.Native.Nat.{bit_or, bit_xor, digits, differ, bit_or-bitwise, bit_xor-bitwise}
use openclaw_webchannel.Common.{
  ℕ, zero, suc, ◌+◌, ◌*◌, ◌/◌, ◌%◌, ◌≤◌, ◌<◌, ◌≡◌, max, refl, sym, ap, ◌∙◌, arith,
}

-- The count of digits to go does not matter, once it is enough.
digits_fuel :
    (f : ℕ → ℕ → ℕ)
    → ((y : ℕ) → y < 2 → f 0 y ≡ y)
    → (n m a b : ℕ) → a ≤ n
    → a ≤ m
    → digits (λ b. b) f n a b ≡ digits (λ b. b) f m a b
digits_fuel f z zero zero a b p q = refl
digits_fuel f z zero (suc m) zero b p q = refl
digits_fuel f z zero (suc m) (suc a) b p q = absurd (omega arith)
digits_fuel f z (suc n) zero zero b p q = refl
digits_fuel f z (suc n) zero (suc a) b p q = absurd (omega arith)
digits_fuel f z (suc n) (suc m) zero b p q = refl
digits_fuel f z (suc n) (suc m) (suc a) b p q =
    omega (arith, digits_fuel f z n m (suc a / 2) (b / 2) (omega arith) (omega arith))

digits_step :
    (f : ℕ → ℕ → ℕ)
    → ((y : ℕ) → y < 2 → f 0 y ≡ y)
    → (a b : ℕ)
    → digits (λ b. b) f a a b ≡ digits (λ b. b) f (a / 2) (a / 2) (b / 2) * 2 + f (a % 2) (b % 2)
digits_step f z zero b = omega (arith, z (b % 2) (omega arith))
digits_step f z (suc a) b =
    omega (arith, digits_fuel f z a (suc a / 2) (suc a / 2) (b / 2) (omega arith) (omega arith))

bit_xor_step : (a b : ℕ) → bit_xor a b ≡ bit_xor (a / 2) (b / 2) * 2 + differ (a % 2) (b % 2)
bit_xor_step a b = omega (
  arith,
  bit_xor-bitwise a b,
  bit_xor-bitwise (a / 2) (b / 2),
  digits_step differ (λ y h. refl) a b,
)

bit_or_step : (a b : ℕ) → bit_or a b ≡ bit_or (a / 2) (b / 2) * 2 + max (a % 2) (b % 2)
bit_or_step a b = omega (
  arith,
  bit_or-bitwise a b,
  bit_or-bitwise (a / 2) (b / 2),
  digits_step max (λ y h. omega arith) a b,
)

differ_cases :
    (x y : ℕ) → x < 2 → y < 2 → (differ x y < 2) × (differ (differ x y) y ≡ x) × (differ x x ≡ 0)
differ_cases zero zero p q = (omega arith, refl, refl)
differ_cases zero (suc zero) p q = (omega arith, refl, refl)
differ_cases (suc zero) zero p q = (omega arith, refl, refl)
differ_cases (suc zero) (suc zero) p q = (omega arith, refl, refl)
differ_cases (suc (suc x)) y p q = absurd (omega arith)
differ_cases zero (suc (suc y)) p q = absurd (omega arith)
differ_cases (suc zero) (suc (suc y)) p q = absurd (omega arith)

zero-bit_xor : (b : ℕ) → bit_xor 0 b ≡ b
zero-bit_xor b = bit_xor-bitwise 0 b

halves : (x h d : ℕ) → x ≡ h * 2 + d → d < 2 → (x / 2 ≡ h) × (x % 2 ≡ d)
halves x h d e l = (omega arith, omega arith)

pub bit_xor_halves :
    (a b : ℕ)
    → (bit_xor a b / 2 ≡ bit_xor (a / 2) (b / 2)) × (bit_xor a b % 2 ≡ differ (a % 2) (b % 2))
bit_xor_halves a b =
    halves (bit_xor a b) (bit_xor (a / 2) (b / 2)) (differ (a % 2) (b % 2)) (bit_xor_step a b)
      ((differ_cases (a % 2) (b % 2) (omega arith) (omega arith)).0)

twice_fuel : (n a b : ℕ) → a ≤ n → b ≤ n → bit_xor (bit_xor a b) b ≡ a
twice_fuel zero zero zero p q = refl
twice_fuel zero (suc a) b p q = absurd (omega arith)
twice_fuel zero zero (suc b) p q = absurd (omega arith)
twice_fuel (suc n) a b p q =
    let (h, d) = bit_xor_halves a b in
    let rec = twice_fuel n (a / 2) (b / 2) (omega arith) (omega arith) in
    let low = (differ_cases (a % 2) (b % 2) (omega arith) (omega arith)).1 in
    let step : bit_xor (bit_xor a b) b
        ≡ bit_xor (bit_xor (a / 2) (b / 2)) (b / 2) * 2 + differ (differ (a % 2) (b % 2)) (b % 2) =
      bit_xor_step (bit_xor a b) b
      ∙ (ap (λ h. bit_xor h (b / 2) * 2 + differ (bit_xor a b % 2) (b % 2)) h
          ∙ ap (λ d. bit_xor (bit_xor (a / 2) (b / 2)) (b / 2) * 2 + differ d (b % 2)) d) in
    omega (arith, step, rec, low)

pub bit_xor_twice : (a b : ℕ) → bit_xor (bit_xor a b) b ≡ a
bit_xor_twice a b = twice_fuel (max a b) a b (omega arith) (omega arith)

self_fuel : (n a : ℕ) → a ≤ n → bit_xor a a ≡ 0
self_fuel zero zero p = refl
self_fuel zero (suc a) p = absurd (omega arith)
self_fuel (suc n) a p = omega (
  arith,
  bit_xor_step a a,
  self_fuel n (a / 2) (omega arith),
  (differ_cases (a % 2) (a % 2) (omega arith) (omega arith)).2,
)

pub bit_xor_self : (a : ℕ) → bit_xor a a ≡ 0
bit_xor_self a = self_fuel a a (omega arith)

pub bit_xor-zero : (a b : ℕ) → bit_xor a b ≡ 0 → a ≡ b
bit_xor-zero a b e = sym (bit_xor_twice a b) ∙ (ap (λ x. bit_xor x b) e ∙ zero-bit_xor b)

le_fuel : (n a b : ℕ) → a ≤ n → (a ≤ bit_or a b) × (b ≤ bit_or a b)
le_fuel zero zero b p = (omega arith, omega (arith, bit_or-bitwise 0 b))
le_fuel zero (suc a) b p = absurd (omega arith)
le_fuel (suc n) a b p =
    let rec = le_fuel n (a / 2) (b / 2) (omega arith) in
    (omega (arith, bit_or_step a b, rec), omega (arith, bit_or_step a b, rec))

pub bit_or-zero : (a b : ℕ) → bit_or a b ≡ 0 → (a ≡ 0) × (b ≡ 0)
bit_or-zero a b e = let le = le_fuel a a b (omega arith) in (omega (arith, le), omega (arith, le))
