-- ===== src/DeviceFlow/Codes/Sampling.antt =====
-- device-flow-enrollment.ts: the user codes that the sampling gives.
use openclaw_webchannel.Common.{
  ℕ, zero, suc, ◌+◌, ◌%◌, ◌≤◌, ◌<◌, ◌≡◌, refl, ap, subst, Bool, true, false, not, Option, none,
  some, List, [], ◌∷◌, ◌++◌, Text, nat_Eq, nat_eq_iff, ltb, ◌==◌, if◌then◌else◌, length, get_elem?,
  any, keep, maybe, arith, inl, inr, Bool-cases, Option-cases, All, take, drop,
}
use openclaw_webchannel.DeviceFlow.Codes.{
  byte_index, reject_at_or_above, alphabet_len, user_code_alphabet, Pool, letter_fuel,
  next_uniform_index, letters, generate_user_code,
}

abbrev pub upto : ℕ → List ℕ
upto zero = []
upto (suc n) = upto n ++ n ∷ []

abbrev pub is_index : ℕ → Option ℕ → Bool
is_index k none = false
is_index k (some i) = i == k

any-append_false :
    (p : ℕ → Bool) (xs ys : List ℕ)
    → any p (xs ++ ys) ≡ false
    → (any p xs ≡ false) × (any p ys ≡ false)
any-append_false p [] ys h = (refl, h)
any-append_false p (x ∷ xs) ys h =
    let rest = any-append_false p xs ys (ground (arith, h)) in (ground (arith, h, rest.0), rest.1)

any-upto : (p : ℕ → Bool) (n k : ℕ) → any p (upto n) ≡ false → k < n → p k ≡ false
any-upto p zero k h lt = absurd (omega (arith, lt))
any-upto p (suc n) k h lt =
    let parts = any-append_false p (upto n) (n ∷ []) h in
    elim (Bool-cases (n == k)) [
      | inl same ↦
          ground (arith, subst (λ x. any p (x ∷ []) ≡ false) ((nat_eq_iff n k).0 same) parts.1)
      | inr other ↦ any-upto p n k parts.0 (ground (arith, other, lt, nat_eq_iff n k))
    ]

unbalanced : ℕ → Bool
unbalanced k = not (length (keep (λ byte. is_index k (byte_index byte)) (upto 256)) == 14)

none_unbalanced : any unbalanced (upto 18) ≡ false
unfolding unbalanced byte_index
none_unbalanced = refl

-- The sampling has no bias: each of the 18 indices comes from exactly 14 of the 256 bytes.
pub byte_index_unbiased :
    (k : ℕ)
    → k < alphabet_len
    → length (keep (λ byte. is_index k (byte_index byte)) (upto 256)) ≡ 14
unfolding unbalanced
byte_index_unbiased k h =
    let found = any-upto unbalanced 18 k none_unbalanced h in
    (nat_eq_iff (length (keep (λ byte. is_index k (byte_index byte)) (upto 256))) 14).0
      (ground (arith, found))

abbrev pub is_accepted : ℕ → Bool
is_accepted byte = ltb byte reject_at_or_above

abbrev pub in_alphabet : ℕ → Bool
in_alphabet c = any (λ x. x == c) user_code_alphabet

no_letter : ℕ → Bool
no_letter i = not (maybe false in_alphabet (get_elem? user_code_alphabet i))

all_letters : any no_letter (upto 18) ≡ false
unfolding no_letter
all_letters = refl

letter_at :
    (i : ℕ)
    → i < 18
    → (letter : ℕ) × (get_elem? user_code_alphabet i ≡ some letter) × (in_alphabet letter ≡ true)
unfolding no_letter
letter_at i h = elim (Option-cases (get_elem? user_code_alphabet i)) [
  | inl e ↦ absurd (ground (arith, e, any-upto no_letter 18 i all_letters h))
  | inr (letter, e) ↦ (letter, e, ground (arith, e, any-upto no_letter 18 i all_letters h))
]

-- The text of letters from the `i`-th on.
hyphenate : ℕ → Text → Text
hyphenate i [] = []
hyphenate i (l ∷ ls) = if i == 4 then 45 ∷ l ∷ hyphenate (suc i) ls else l ∷ hyphenate (suc i) ls

hyphenate_late : (i : ℕ) (ls : Text) → 4 < i → hyphenate i ls ≡ ls
unfolding hyphenate
hyphenate_late i [] h = refl
hyphenate_late i (l ∷ ls) h = ground (arith, h, hyphenate_late (suc i) ls, nat_eq_iff i 4)

hyphenate_eight : (ls : Text) → length ls ≡ 8 → hyphenate 0 ls ≡ take 4 ls ++ 45 ∷ drop 4 ls
unfolding hyphenate
hyphenate_eight [] h = absurd (omega (arith, h))
hyphenate_eight (a ∷ []) h = absurd (omega (arith, h))
hyphenate_eight (a ∷ b ∷ []) h = absurd (omega (arith, h))
hyphenate_eight (a ∷ b ∷ c ∷ []) h = absurd (omega (arith, h))
hyphenate_eight (a ∷ b ∷ c ∷ d ∷ []) h = absurd (omega (arith, h))
hyphenate_eight (a ∷ b ∷ c ∷ d ∷ e ∷ ls) h =
    ap (λ x. a ∷ b ∷ c ∷ d ∷ 45 ∷ e ∷ x) (hyphenate_late 5 ls (omega arith))

module _ (random : ℕ → List ℕ) where
  record Draws (fuel : ℕ) (pool : Pool) : Type 0 where
    pub index : ℕ
    pub rest : Pool
    pub drawn : next_uniform_index random fuel pool ≡ some (index, rest)
    pub below : index < 18
    pub shorter : length rest.0 ≤ 16

  accepted_index : (b : ℕ) → is_accepted b ≡ true → (byte_index b ≡ some (b % 18)) × (b % 18 < 18)
  unfolding byte_index
  accepted_index b h = (rw h refl, omega arith)

  rejected_index : (b : ℕ) → is_accepted b ≡ false → byte_index b ≡ none
  unfolding byte_index
  rejected_index b h = rw h refl

  take_first :
      (fuel b draws : ℕ) (bs : List ℕ)
      → is_accepted b ≡ true
      → length bs ≤ 16
      → Draws (suc fuel) (b ∷ bs, draws)
  unfolding next_uniform_index
  take_first fuel b draws bs h short = record {
    index = b % 18;
    rest = (bs, draws);
    drawn = rw (accepted_index b h).0 refl;
    below = (accepted_index b h).1;
    shorter = short;
  }

  skip_first :
      (fuel b draws : ℕ) (bs : List ℕ)
      → is_accepted b ≡ false
      → Draws fuel (bs, draws)
      → Draws (suc fuel) (b ∷ bs, draws)
  unfolding next_uniform_index
  skip_first fuel b draws bs h d = record {
    index = d.index;
    rest = d.rest;
    drawn = rw (rejected_index b h) d.drawn;
    below = d.below;
    shorter = d.shorter;
  }

  refill : (fuel draws : ℕ) → Draws fuel (random draws, suc draws) → Draws (suc fuel) ([], draws)
  unfolding next_uniform_index
  refill fuel draws d = record {
    index = d.index;
    rest = d.rest;
    drawn = d.drawn;
    below = d.below;
    shorter = d.shorter;
  }

  -- From a pool with a byte that is not rejected, one step for each byte is enough.
  draw_accepted :
      (fuel draws : ℕ) (bs : List ℕ)
      → any is_accepted bs ≡ true
      → length bs ≤ fuel
      → length bs ≤ 16
      → Draws fuel (bs, draws)
  draw_accepted fuel draws [] h enough short = ground (arith, h)
  draw_accepted zero draws (b ∷ bs) h enough short = absurd (omega (arith, enough))
  draw_accepted (suc fuel) draws (b ∷ bs) h enough short = elim (Bool-cases (is_accepted b)) [
    | inl yes_b ↦ take_first fuel b draws bs yes_b (omega (arith, short))
    | inr no_b ↦ skip_first fuel b draws bs no_b (
        draw_accepted fuel draws bs (ground (arith, h, no_b)) (omega (arith, enough))
          (omega (arith, short)))
  ]

  module _ (filled : (n : ℕ) → length (random n) ≡ 16)
      (accepts : (n : ℕ) → any is_accepted (random n) ≡ true) where
    draw_any :
        (fuel draws : ℕ) (bs : List ℕ)
        → length bs + 17 ≤ fuel
        → length bs ≤ 16
        → Draws fuel (bs, draws)
    draw_any zero draws bs enough short = absurd (omega (arith, enough))
    draw_any (suc fuel) draws [] enough short = refill fuel draws (
        draw_accepted fuel (suc draws) (random draws) (accepts draws)
          (omega (arith, filled draws, enough)) (omega (arith, filled draws)))
    draw_any (suc fuel) draws (b ∷ bs) enough short = elim (Bool-cases (is_accepted b)) [
      | inl yes_b ↦ take_first fuel b draws bs yes_b (omega (arith, short))
      | inr no_b ↦
          skip_first fuel b draws bs no_b
            (draw_any fuel draws bs (omega (arith, enough)) (omega (arith, short)))
    ]

    record Spelled (left i : ℕ) (pool : Pool) : Type 0 where
      pub chosen : Text
      pub made : letters random left i pool ≡ some (hyphenate i chosen)
      pub many : length chosen ≡ left
      pub known : All (λ c. in_alphabet c ≡ true) chosen

    spell : (left i : ℕ) (pool : Pool) → length pool.0 ≤ 16 → Spelled left i pool
    unfolding letters hyphenate
    spell zero i pool short = record { chosen = []; made = refl; many = refl; known = tt }
    spell (suc left) i pool short =
        let d = draw_any letter_fuel pool.1 pool.0 (omega (arith, short)) short in
        let rest = spell left (suc i) d.rest d.shorter in
        let (letter, at, good) = letter_at d.index d.below in
        record {
          chosen = letter ∷ rest.chosen;
          made = rw (d.drawn, rest.made, at) refl;
          many = omega (arith, rest.many);
          known = (good, rest.known);
        }

    -- Where every array drawn is full and has a byte that is not rejected, the search ends with a user
    -- code: eight letters of the alphabet, with a hyphen after the fourth.
    pub generate_user_code_total :
        (code : Text) × (chosen : Text) × (generate_user_code random ≡ some code)
        × (code ≡ take 4 chosen ++ 45 ∷ drop 4 chosen)
        × (length chosen ≡ 8)
        × All (λ c. in_alphabet c ≡ true) chosen
    unfolding generate_user_code
    generate_user_code_total =
        let s = spell 8 0 ([], 0) (omega arith) in
        (hyphenate 0 s.chosen, s.chosen, s.made, hyphenate_eight s.chosen s.many, s.many, s.known)
