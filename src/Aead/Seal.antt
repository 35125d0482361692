-- ===== src/Aead/Seal.antt =====
-- The sealed messages of chacha20poly1305.ts: `encrypt` and `decrypt`.
use openclaw_webchannel.Common.{
  ℕ, ◌+◌, ◌%◌, ◌^◌, ◌≤◌, ◌≡◌, ◌↔◌, refl, ap, sym, subst, ◌∙◌, Bool, true, false, Option, none, some,
  Option-cases, inl, inr, if◌then◌else◌, length, take, drop, arith,
}
use openclaw_webchannel.Aead.{
  Bytes, le_number, clamp, accumulate, chacha20_block, chacha20_from, chacha20, poly1305,
  timing_safe_equal, build_mac_input, encrypt, decrypt,
}
use openclaw_webchannel.Aead.Bytes.{timing_safe_equal_iff, length-le_bytes}
use openclaw_webchannel.Aead.Stream.{chacha20_from_twice, chacha20_block-some, chacha20_from-some}

pub chacha20_twice :
    (key nonce : Bytes) (counter : ℕ) (ds cs : Bytes)
    → chacha20 key nonce counter ds ≡ some cs
    → (length cs ≡ length ds) × (chacha20 key nonce counter cs ≡ some ds)
unfolding chacha20
chacha20_twice key nonce counter ds cs h =
    let (l, back) = chacha20_from_twice (length ds) key nonce counter ds cs h in
    (l, subst (λ n. chacha20_from n key nonce counter cs ≡ some ds) (sym l) back)

-- The tag that the first block's key gives a ciphertext.
abbrev pub tag_of : Bytes → Bytes → Bytes → Bytes
tag_of block aad ciphertext = poly1305 (take 32 block) (build_mac_input aad ciphertext)

encrypt_eq :
    (key nonce plaintext aad block ciphertext : Bytes)
    → chacha20_block key 0 nonce ≡ some block
    → chacha20 key nonce 1 plaintext ≡ some ciphertext
    → encrypt key nonce plaintext aad ≡ some (ciphertext, tag_of block aad ciphertext)
unfolding encrypt
encrypt_eq key nonce plaintext aad block ciphertext e f = rw (e, f, encrypt) refl

pub decrypt_eq :
    (key nonce ciphertext tag aad block : Bytes)
    → chacha20_block key 0 nonce ≡ some block
    → decrypt key nonce ciphertext tag aad ≡ (
        if timing_safe_equal tag (tag_of block aad ciphertext)
        then chacha20 key nonce 1 ciphertext
        else none)
unfolding decrypt
decrypt_eq key nonce ciphertext tag aad block e = rw (e, decrypt) refl

sealed_inj :
    (a b c d : Bytes)
    → ◌≡◌ {A = Option (Bytes × Bytes)} (some (a, b)) (some (c, d))
    → (a ≡ c) × (b ≡ d)
sealed_inj a b c d e = (ground arith, ground arith)

pub if-some :
    {A : Type 0} (c : Bool) (o : Option A) (a : A)
    → (if c then o else none) ≡ some a
    → (c ≡ true) × (o ≡ some a)
if-some true o a h = (refl, h)
if-some false o a h = absurd (ground arith)

opened :
    (key nonce ciphertext tag aad plaintext block : Bytes)
    → chacha20_block key 0 nonce ≡ some block
    → decrypt key nonce ciphertext tag aad ≡ some plaintext
    → encrypt key nonce plaintext aad ≡ some (ciphertext, tag)
opened key nonce ciphertext tag aad plaintext block e h =
    let (same, plain) = if-some _ _ _ (sym (decrypt_eq key nonce ciphertext tag aad block e) ∙ h) in
    let t = (timing_safe_equal_iff tag (tag_of block aad ciphertext)).0 same in
    encrypt_eq key nonce plaintext aad block ciphertext e
      (chacha20_twice key nonce 1 ciphertext plaintext plain).1
    ∙ ap (λ t. some (ciphertext, t)) (sym t)

sealed :
    (key nonce ciphertext tag aad plaintext block cs : Bytes)
    → chacha20_block key 0 nonce ≡ some block
    → chacha20 key nonce 1 plaintext ≡ some cs
    → encrypt key nonce plaintext aad ≡ some (ciphertext, tag)
    → decrypt key nonce ciphertext tag aad ≡ some plaintext
sealed key nonce ciphertext tag aad plaintext block cs e f h =
    let (c, t) = sealed_inj _ _ _ _ (sym (encrypt_eq key nonce plaintext aad block cs e f) ∙ h) in
    let back = (chacha20_twice key nonce 1 plaintext cs f).1 in
    let same =
      (timing_safe_equal_iff tag (tag_of block aad ciphertext)).1
        (sym t ∙ ap (tag_of block aad) c) in
    decrypt_eq key nonce ciphertext tag aad block e
    ∙ (rw same (ap (chacha20 key nonce 1) (sym c) ∙ back))

encrypt-none_block :
    (key nonce plaintext aad : Bytes)
    → chacha20_block key 0 nonce ≡ none
    → encrypt key nonce plaintext aad ≡ none
unfolding encrypt
encrypt-none_block key nonce plaintext aad e = rw (e, encrypt) refl

pub decrypt-none_block :
    (key nonce ciphertext tag aad : Bytes)
    → chacha20_block key 0 nonce ≡ none
    → decrypt key nonce ciphertext tag aad ≡ none
unfolding decrypt
decrypt-none_block key nonce ciphertext tag aad e = rw (e, decrypt) refl

encrypt-none_stream :
    (key nonce plaintext aad : Bytes)
    → chacha20 key nonce 1 plaintext ≡ none
    → encrypt key nonce plaintext aad ≡ none
unfolding encrypt
encrypt-none_stream key nonce plaintext aad f = elim (Option-cases (chacha20_block key 0 nonce)) [
  | inl e ↦ encrypt-none_block key nonce plaintext aad e
  | inr (block, e) ↦ rw (e, f, encrypt) refl
]

pub none-some : {A : Type 0} (o : Option A) (a : A) → o ≡ none → o ≡ some a → ⊥
none-some o a e f = ground arith

-- A ciphertext with a tag opens to a plaintext exactly when it is what `encrypt` makes of that
-- plaintext under the same key, nonce and associated data.
decrypt_iff_encrypt :
    (key nonce plaintext aad ciphertext tag : Bytes)
    → (decrypt key nonce ciphertext tag aad ≡ some plaintext)
      ↔ (encrypt key nonce plaintext aad ≡ some (ciphertext, tag))
decrypt_iff_encrypt key nonce plaintext aad ciphertext tag =
    elim (Option-cases (chacha20_block key 0 nonce)) [
      | inl e ↦ (
        λ h. absurd (none-some _ _ (decrypt-none_block key nonce ciphertext tag aad e) h),
        λ h. absurd (none-some _ _ (encrypt-none_block key nonce plaintext aad e) h),
      )
      | inr (block, e) ↦ (
        opened key nonce ciphertext tag aad plaintext block e,
        elim (Option-cases (chacha20 key nonce 1 plaintext)) [
          | inl f ↦ λ h. absurd (none-some _ _ (encrypt-none_stream key nonce plaintext aad f) h)
          | inr (cs, f) ↦ sealed key nonce ciphertext tag aad plaintext block cs e f
        ],
      )
    ]

chacha20_total :
    (key nonce : Bytes) (counter : ℕ) (ds : Bytes)
    → 32 ≤ length key
    → 12 ≤ length nonce
    → (cs : Bytes) × (chacha20 key nonce counter ds ≡ some cs)
unfolding chacha20
chacha20_total key nonce counter ds hk hn =
    chacha20_from-some (length ds) key nonce counter ds hk hn (omega arith)

length-poly1305 : (key msg : Bytes) → length (poly1305 key msg) ≡ 16
unfolding poly1305
length-poly1305 key msg = length-le_bytes 16 (
    (accumulate (length msg) (le_number (clamp 0 (take 16 key))) 0 msg
      + le_number (take 16 (drop 16 key)))
    % 2 ^ 128)

-- For a key of 32 bytes or more and a nonce of 12 or more, every plaintext is encrypted: to a
-- ciphertext of its length and a tag of 16 bytes, which `decrypt` opens to it.
pub encrypt_total :
    (key nonce plaintext aad : Bytes)
    → 32 ≤ length key
    → 12 ≤ length nonce
    → (ciphertext : Bytes) × (tag : Bytes) × (encrypt key nonce plaintext aad
        ≡ some (ciphertext, tag))
      × (length ciphertext ≡ length plaintext)
      × (length tag ≡ 16)
      × (decrypt key nonce ciphertext tag aad ≡ some plaintext)
encrypt_total key nonce plaintext aad hk hn =
    let (block, e) = chacha20_block-some key 0 nonce hk hn in
    let (cs, f) = chacha20_total key nonce 1 plaintext hk hn in
    let h = encrypt_eq key nonce plaintext aad block cs e f in
    (
      cs,
      tag_of block aad cs,
      h,
      (chacha20_twice key nonce 1 plaintext cs f).0,
      length-poly1305 (take 32 block) (build_mac_input aad cs),
      (decrypt_iff_encrypt key nonce plaintext aad cs (tag_of block aad cs)).1 h,
    )
