-- ===== src/Aead/Stream.antt =====
-- The key stream of chacha20poly1305.ts: its blocks and their lengths.
use openclaw_webchannel.Common.{
  ℕ, zero, suc, ◌+◌, ◌-◌, ◌*◌, ◌%◌, ◌≤◌, ◌≡◌, min, refl, ap, sym, ◌∙◌, subst, Bool, true, false,
  ◌||◌, none, some, List, [], ◌∷◌, ◌++◌, ltb, if◌then◌else◌, length, take, drop, set, length-append,
  length-take, append-nil, Option-cases, ◌⊎◌, inl, inr, arith,
}
use openclaw_webchannel.Aead.{
  Bytes, word, add_rotate, quarter_round, double_round, rounds, le_words, le_bytes, initial_state,
  serialize, chacha20_block, xor_bytes, chacha20_from,
}
use openclaw_webchannel.Aead.Bytes.{length-xor_bytes, xor_bytes_twice, length-le_bytes}

le-not_ltb : (n m : ℕ) → n ≤ m → ltb m n ≡ false
le-not_ltb n m h = ground arith

module _ {ℓ} {A : Type ℓ} where
  length-set : (xs : List A) (i : ℕ) (v : A) → length (set xs i v) ≡ length xs
  length-set [] i v = refl
  length-set (x ∷ xs) zero v = refl
  length-set (x ∷ xs) (suc i) v = ap suc (length-set xs i v)

  pub length-drop : (n : ℕ) (xs : List A) → length (drop n xs) ≡ length xs - n
  length-drop zero xs = omega arith
  length-drop (suc n) [] = omega arith
  length-drop (suc n) (x ∷ xs) = omega (arith, length-drop n xs)

  take-append : (xs ys : List A) (n : ℕ) → length xs ≡ n → take n (xs ++ ys) ≡ xs
  take-append [] ys zero h = refl
  take-append [] ys (suc n) h = absurd (omega arith)
  take-append (x ∷ xs) ys zero h = absurd (omega arith)
  take-append (x ∷ xs) ys (suc n) h = ap (λ t. x ∷ t) (take-append xs ys n (omega arith))

  drop-append : (xs ys : List A) (n : ℕ) → length xs ≡ n → drop n (xs ++ ys) ≡ ys
  drop-append [] ys zero h = refl
  drop-append [] ys (suc n) h = absurd (omega arith)
  drop-append (x ∷ xs) ys zero h = absurd (omega arith)
  drop-append (x ∷ xs) ys (suc n) h = drop-append xs ys n (omega arith)

  take-all : (n : ℕ) (xs : List A) → length xs ≤ n → take n xs ≡ xs
  take-all zero [] h = refl
  take-all zero (x ∷ xs) h = absurd (omega arith)
  take-all (suc n) [] h = refl
  take-all (suc n) (x ∷ xs) h = ap (λ t. x ∷ t) (take-all n xs (omega arith))

  drop-all : (n : ℕ) (xs : List A) → length xs ≤ n → drop n xs ≡ []
  drop-all zero [] h = refl
  drop-all zero (x ∷ xs) h = absurd (omega arith)
  drop-all (suc n) [] h = refl
  drop-all (suc n) (x ∷ xs) h = drop-all n xs (omega arith)

  take-drop : (n : ℕ) (xs : List A) → take n xs ++ drop n xs ≡ xs
  take-drop zero xs = refl
  take-drop (suc n) [] = refl
  take-drop (suc n) (x ∷ xs) = ap (λ t. x ∷ t) (take-drop n xs)

length-add_rotate : (s : List ℕ) (x y z r : ℕ) → length (add_rotate s x y z r) ≡ length s
unfolding add_rotate
length-add_rotate s x y z r = length-set _ _ _ ∙ length-set _ _ _

length-quarter_round : (s : List ℕ) (a b c d : ℕ) → length (quarter_round s a b c d) ≡ length s
unfolding quarter_round
length-quarter_round s a b c d =
    rw (length-add_rotate, length-add_rotate, length-add_rotate, length-add_rotate) refl

length-double_round : (s : List ℕ) → length (double_round s) ≡ length s
unfolding double_round
length-double_round s =
    rw
      (
        length-quarter_round, length-quarter_round, length-quarter_round, length-quarter_round,
        length-quarter_round, length-quarter_round, length-quarter_round, length-quarter_round,
      )
      refl

length-rounds : (n : ℕ) (s : List ℕ) → length (rounds n s) ≡ length s
unfolding rounds
length-rounds zero s = refl
length-rounds (suc n) s = length-rounds n (double_round s) ∙ length-double_round s

length-le_words : (n : ℕ) (bs : Bytes) → length (le_words n bs) ≡ n
unfolding le_words
length-le_words zero bs = refl
length-le_words (suc n) bs = ap suc (length-le_words n (drop 4 bs))

length-serialize : (s i : List ℕ) → length s ≡ length i → length (serialize s i) ≡ 4 * length s
unfolding serialize
length-serialize [] i h = refl
length-serialize (s ∷ ss) [] h = absurd (omega arith)
length-serialize (s ∷ ss) (i ∷ is) h = omega (
  arith,
  length-append (le_bytes 4 ((s + i) % word)) (serialize ss is),
  length-le_bytes 4 ((s + i) % word),
  length-serialize ss is (omega arith),
)

length-initial_state :
    (key : Bytes) (counter : ℕ) (nonce : Bytes) → length (initial_state key counter nonce) ≡ 16
unfolding initial_state
length-initial_state key counter nonce = omega (
  arith,
  length-append (le_words 8 key) (counter % word ∷ le_words 3 nonce),
  length-le_words 8 key,
  length-le_words 3 nonce,
)

abbrev block_bytes : Bytes → ℕ → Bytes → Bytes
block_bytes key counter nonce = let s = initial_state key counter nonce in serialize (rounds 10 s) s

guard-none :
    (c d : Bool) (x : Bytes) → c ≡ false → d ≡ false → (if c || d then none else some x) ≡ some x
guard-none c d x hc hd = rw (hc, hd) refl

guard-some : (c : Bool) (x b : Bytes) → (if c then none else some x) ≡ some b → x ≡ b
guard-some true x b h = absurd (ground arith)
guard-some false x b h = ground arith

-- A key of 32 bytes and a nonce of 12 give a block.
pub chacha20_block-some :
    (key : Bytes) (counter : ℕ) (nonce : Bytes)
    → 32 ≤ length key
    → 12 ≤ length nonce
    → (b : Bytes) × (chacha20_block key counter nonce ≡ some b)
unfolding chacha20_block
chacha20_block-some key counter nonce hk hn = (
  block_bytes key counter nonce,
  guard-none (ltb (length key) 32) (ltb (length nonce) 12) (block_bytes key counter nonce)
      (le-not_ltb 32 (length key) hk) (le-not_ltb 12 (length nonce) hn),
)

pub length-chacha20_block :
    (key : Bytes) (counter : ℕ) (nonce : Bytes) (b : Bytes)
    → chacha20_block key counter nonce ≡ some b
    → length b ≡ 64
unfolding chacha20_block
length-chacha20_block key counter nonce b h =
    let s = initial_state key counter nonce in
    let r = length-rounds 10 s in
    let w : length s ≡ 16 = length-initial_state key counter nonce in
    subst (λ b. length b ≡ 64)
      (guard-some (ltb (length key) 32 || ltb (length nonce) 12) (block_bytes key counter nonce) b
        h)
      (omega (arith, length-serialize (rounds 10 s) s r))

pub chacha20_from_step :
    (fuel : ℕ) (key nonce : Bytes) (counter d : ℕ) (ds block rest : Bytes)
    → chacha20_block key counter nonce ≡ some block
    → chacha20_from fuel key nonce (counter + 1) (drop 64 (d ∷ ds)) ≡ some rest
    → chacha20_from (suc fuel) key nonce counter (d ∷ ds)
      ≡ some (xor_bytes (take 64 (d ∷ ds)) block ++ rest)
unfolding chacha20_from
chacha20_from_step fuel key nonce counter d ds block rest e f = rw (e, f, chacha20_from) refl

-- What is cut off the front of a list, when what follows is empty or the front is full.
cut :
    (n : ℕ) (xs ys : Bytes)
    → (length xs ≡ n) ⊎ ((length xs ≤ n) × (length ys ≡ 0))
    → (take n (xs ++ ys) ≡ xs) × (drop n (xs ++ ys) ≡ ys)
cut n xs ys (inl e) = (take-append xs ys n e, drop-append xs ys n e)
cut n xs [] (inr (l, z)) = rw (append-nil xs) (take-all n xs l, drop-all n xs l)
cut n xs (y ∷ ys) (inr (l, z)) = absurd (omega arith)

front_count :
    (x t r d l : ℕ)
    → t ≡ min 64 l
    → x ≡ min t 64
    → d ≡ l - 64
    → r ≡ d
    → (x ≡ 64) ⊎ ((x ≤ 64) × (r ≡ 0))
front_count x t r d l ht hx hd hr = ground arith

front :
    (ds block rest : Bytes)
    → length block ≡ 64
    → length rest ≡ length (drop 64 ds)
    → (length (xor_bytes (take 64 ds) block) ≡ 64)
      ⊎ ((length (xor_bytes (take 64 ds) block) ≤ 64) × (length rest ≡ 0))
front ds block rest hb hr =
    front_count _ _ _ _ _ (length-take 64 ds)
      (subst (λ b. length (xor_bytes (take 64 ds) block) ≡ min (length (take 64 ds)) b) hb
        (length-xor_bytes (take 64 ds) block))
      (length-drop 64 ds) hr

some_inj : (a b : Bytes) → some a ≡ some b → a ≡ b
some_inj a b e = ground arith

twice_step :
    (fuel : ℕ) (key nonce : Bytes) (counter d : ℕ) (ds cs block rest : Bytes)
    → chacha20_block key counter nonce ≡ some block
    → xor_bytes (take 64 (d ∷ ds)) block ++ rest ≡ cs
    → (length rest ≡ length (drop 64 (d ∷ ds)))
      × (chacha20_from fuel key nonce (counter + 1) rest ≡ some (drop 64 (d ∷ ds)))
    → (length cs ≡ length (d ∷ ds))
      × (chacha20_from (suc fuel) key nonce counter cs ≡ some (d ∷ ds))
twice_step fuel key nonce counter d ds [] block rest e c (l, again) = absurd (
    omega (
      arith,
      ap length c,
      length-append (xor_bytes (take 64 (d ∷ ds)) block) rest,
      length-xor_bytes (take 64 (d ∷ ds)) block,
      length-take 64 (d ∷ ds),
      length-chacha20_block key counter nonce block e,
    ))
twice_step fuel key nonce counter d ds (x ∷ xs) block rest e c (l, again) =
    let hb = length-chacha20_block key counter nonce block e in
    let front_lem =
      cut 64 (xor_bytes (take 64 (d ∷ ds)) block) rest (front (d ∷ ds) block rest hb l) in
    let cut_take : take 64 (x ∷ xs) ≡ xor_bytes (take 64 (d ∷ ds)) block =
      subst (λ c. take 64 c ≡ xor_bytes (take 64 (d ∷ ds)) block) c front_lem.0 in
    let cut_drop : drop 64 (x ∷ xs) ≡ rest = subst (λ c. drop 64 c ≡ rest) c front_lem.1 in
    let second =
      chacha20_from_step fuel key nonce counter x xs block (drop 64 (d ∷ ds)) e
        (ap (chacha20_from fuel key nonce (counter + 1)) cut_drop ∙ again) in
    let undo : xor_bytes (take 64 (x ∷ xs)) block ++ drop 64 (d ∷ ds) ≡ d ∷ ds =
      ap (λ t. xor_bytes t block ++ drop 64 (d ∷ ds)) cut_take
      ∙ (ap (λ t. t ++ drop 64 (d ∷ ds))
            (xor_bytes_twice (take 64 (d ∷ ds)) block (omega (arith, length-take 64 (d ∷ ds), hb)))
          ∙ take-drop 64 (d ∷ ds)) in
    (
      omega (
        arith,
        ap length c,
        length-append (xor_bytes (take 64 (d ∷ ds)) block) rest,
        length-xor_bytes (take 64 (d ∷ ds)) block,
        length-take 64 (d ∷ ds),
        length-drop 64 (d ∷ ds),
        hb,
        l,
      ),
      second ∙ ap some undo,
    )

-- Under the stream no length changes, and a second pass gives back the first input.
pub chacha20_from_twice :
    (fuel : ℕ) (key nonce : Bytes) (counter : ℕ) (ds cs : Bytes)
    → chacha20_from fuel key nonce counter ds ≡ some cs
    → (length cs ≡ length ds) × (chacha20_from fuel key nonce counter cs ≡ some ds)
unfolding chacha20_from
chacha20_from_twice fuel key nonce counter [] [] h = (refl, refl)
chacha20_from_twice fuel key nonce counter [] (c ∷ cs) h = absurd (ground arith)
chacha20_from_twice zero key nonce counter (d ∷ ds) cs h = absurd (ground arith)
chacha20_from_twice (suc fuel) key nonce counter (d ∷ ds) cs h =
    elim (Option-cases (chacha20_block key counter nonce)) [
      | inl e ↦ absurd (ground (arith, e))
      | inr (block, e) ↦
          elim (Option-cases (chacha20_from fuel key nonce (counter + 1) (drop 64 (d ∷ ds)))) [
            | inl f ↦ absurd (ground (arith, e, f))
            | inr (rest, f) ↦
                twice_step fuel key nonce counter d ds cs block rest e
                  (some_inj _ _
                    (sym (chacha20_from_step fuel key nonce counter d ds block rest e f) ∙ h))
                  (chacha20_from_twice fuel key nonce (counter + 1) (drop 64 (d ∷ ds)) rest f)
          ]
    ]

-- As much fuel as there are bytes is enough, for a key and a nonce of full length.
pub chacha20_from-some :
    (fuel : ℕ) (key nonce : Bytes) (counter : ℕ) (ds : Bytes)
    → 32 ≤ length key
    → 12 ≤ length nonce
    → length ds ≤ fuel
    → (cs : Bytes) × (chacha20_from fuel key nonce counter ds ≡ some cs)
unfolding chacha20_from
chacha20_from-some fuel key nonce counter [] hk hn h = ([], refl)
chacha20_from-some zero key nonce counter (d ∷ ds) hk hn h = absurd (omega arith)
chacha20_from-some (suc fuel) key nonce counter (d ∷ ds) hk hn h =
    let (block, e) = chacha20_block-some key counter nonce hk hn in
    let (rest, f) =
      chacha20_from-some fuel key nonce (counter + 1) (drop 64 (d ∷ ds)) hk hn
        (omega (arith, length-drop 64 (d ∷ ds))) in
    (
      xor_bytes (take 64 (d ∷ ds)) block ++ rest,
      chacha20_from_step fuel key nonce counter d ds block rest e f,
    )
