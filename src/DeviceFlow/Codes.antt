-- ===== src/DeviceFlow/Codes.antt =====
-- device-flow-enrollment.ts: the user code, by rejection sampling. `random n` is the content of the
-- `n`-th array that `getRandomValues` fills. The search for a byte runs on fuel, one step for each
-- byte and each new array; `letter_fuel` is enough where an array has a byte that is not rejected.
pub mod Sampling
use openclaw_webchannel.Common.{
  ℕ, zero, suc, ◌+◌, ◌-◌, ◌%◌, ◌≤◌, ◌<◌, ◌≡◌, refl, sym, ap, subst, ◌∙◌, Bool, true, false, not,
  ◌&&◌, ◌||◌, Option, none, some, List, [], ◌∷◌, ◌++◌, Text, codes, nat_Eq, ltb, ◌==◌,
  if◌then◌else◌, length, get_elem?, any, keep, maybe, maybe_lem, if_lem, arith, inl, inr,
  Bool-cases, Option-cases,
}

abbrev pub user_code_alphabet : Text
user_code_alphabet = codes "BCDEGHKMNPQRSTVWXZ"

abbrev pub alphabet_len : ℕ
alphabet_len = 18

-- The largest multiple of the alphabet's length that fits a byte.
abbrev pub reject_at_or_above : ℕ
reject_at_or_above = 256 - 256 % 18

-- The index that a byte gives, unless it is rejected.
pub byte_index : ℕ → Option ℕ
byte_index byte = if ltb byte reject_at_or_above then some (byte % 18) else none

abbrev pub Pool : Type 0
Pool = List ℕ × ℕ

abbrev pub letter_fuel : ℕ
letter_fuel = 34

module _ (random : ℕ → List ℕ) where
  -- `nextUniformIndex`, with the bytes left in the pool and the number of arrays drawn.
  pub next_uniform_index : ℕ → Pool → Option (ℕ × Pool)
  unfolding byte_index
  next_uniform_index zero pool = none
  next_uniform_index (suc fuel) ([], draws) = next_uniform_index fuel (random draws, suc draws)
  next_uniform_index (suc fuel) (byte ∷ rest, draws) =
      let again = next_uniform_index fuel (rest, draws) in
      maybe again (λ index. some (index, (rest, draws))) (byte_index byte)

  -- The letters from the `i`-th on, with the hyphen before the fifth.
  pub letters : ℕ → ℕ → Pool → Option Text
  unfolding next_uniform_index
  letters zero i pool = some []
  letters (suc left) i pool =
      maybe none
        (λ drawn.
          maybe none
            (λ rest.
              maybe none (λ letter. some (if i == 4 then 45 ∷ letter ∷ rest else letter ∷ rest))
                (get_elem? user_code_alphabet drawn.0))
            (letters left (suc i) drawn.1))
        (next_uniform_index letter_fuel pool)

  pub generate_user_code : Option Text
  unfolding letters
  generate_user_code = letters 8 0 ([], 0)
