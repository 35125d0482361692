-- ===== src/Aead/Mac.antt =====
-- The text that Poly1305 authenticates in chacha20poly1305.ts, and its fields.
use openclaw_webchannel.Common.{
  ℕ, zero, suc, ◌/◌, ◌^◌, ◌<◌, ◌≡◌, refl, sym, ap, ◌∙◌, [], ◌∷◌, ◌++◌, append_assoc, length,
  replicate, length-append, arith,
}
use openclaw_webchannel.Aead.{Bytes, le_bytes, le_number, pad16, build_mac_input}
use openclaw_webchannel.Aead.Bytes.{length-le_bytes}

le_number-le_bytes : (n v : ℕ) → v < 256 ^ n → le_number (le_bytes n v) ≡ v
unfolding le_bytes le_number
le_number-le_bytes zero v h = omega arith
le_number-le_bytes (suc n) v h = omega (arith, le_number-le_bytes n (v / 256) (omega arith))

le_bytes_injective : (a b : ℕ) → a < 2 ^ 64 → b < 2 ^ 64 → le_bytes 8 a ≡ le_bytes 8 b → a ≡ b
le_bytes_injective a b ha hb e =
    sym (le_number-le_bytes 8 a (omega arith))
    ∙ (ap le_number e ∙ le_number-le_bytes 8 b (omega arith))

-- Two texts cut at the same length.
cut_front : (p q m n : Bytes) → length p ≡ length q → p ++ m ≡ q ++ n → (p ≡ q) × (m ≡ n)
cut_front [] [] m n l e = (refl, e)
cut_front [] (y ∷ q) m n l e = absurd (omega arith)
cut_front (x ∷ p) [] m n l e = absurd (omega arith)
cut_front (x ∷ p) (y ∷ q) m n l e =
    let ih = cut_front p q m n (omega arith) (ground (arith, e)) in ground (arith, ih, e)

cut_back : (p q m n : Bytes) → length m ≡ length n → p ++ m ≡ q ++ n → (p ≡ q) × (m ≡ n)
cut_back p q m n l e =
    cut_front p q m n (omega (arith, l, ap length e, length-append p m, length-append q n)) e

-- The part of the input before the lengths.
abbrev padded : Bytes → Bytes → Bytes
padded aad ciphertext =
    aad
    ++ (replicate (pad16 (length aad)) 0 ++ (ciphertext ++ replicate (pad16 (length ciphertext)) 0))

build_mac_input-padded :
    (aad ciphertext : Bytes)
    → build_mac_input aad ciphertext
      ≡ padded aad ciphertext ++ (le_bytes 8 (length aad) ++ le_bytes 8 (length ciphertext))
unfolding build_mac_input
build_mac_input-padded aad ciphertext =
    let z1 = replicate (pad16 (length aad)) 0 in
    let z2 = replicate (pad16 (length ciphertext)) 0 in
    let lens = le_bytes 8 (length aad) ++ le_bytes 8 (length ciphertext) in
    sym (
      append_assoc aad (z1 ++ (ciphertext ++ z2)) lens
      ∙ ap (λ t. aad ++ t)
          (append_assoc z1 (ciphertext ++ z2) lens
            ∙ ap (λ t. z1 ++ t) (append_assoc ciphertext z2 lens)))

-- What is authenticated determines the associated data and the ciphertext, while both are shorter
-- than 2 ^ 64 bytes: no bytes can move between them under the same tag's input.
pub build_mac_input_injective :
    (aad aad' ciphertext ciphertext' : Bytes)
    → length aad < 2 ^ 64
    → length aad' < 2 ^ 64
    → length ciphertext < 2 ^ 64
    → length ciphertext' < 2 ^ 64
    → build_mac_input aad ciphertext ≡ build_mac_input aad' ciphertext'
    → (aad ≡ aad') × (ciphertext ≡ ciphertext')
build_mac_input_injective aad aad' c c' ha ha' hc hc' e =
    let (body, lens) =
      cut_back (padded aad c) (padded aad' c') (le_bytes 8 (length aad) ++ le_bytes 8 (length c))
        (le_bytes 8 (length aad') ++ le_bytes 8 (length c'))
        (same_length (length aad) (length c) (length aad') (length c'))
        (sym (build_mac_input-padded aad c) ∙ (e ∙ build_mac_input-padded aad' c')) in
    let (la, lc) =
      cut_front (le_bytes 8 (length aad)) (le_bytes 8 (length aad')) _ _
        (length-le_bytes 8 (length aad) ∙ sym (length-le_bytes 8 (length aad'))) lens in
    let na = le_bytes_injective (length aad) (length aad') ha ha' la in
    let nc = le_bytes_injective (length c) (length c') hc hc' lc in
    let (ea, rest) = cut_front aad aad' _ _ na body in
    let (_, tail) =
      cut_front (replicate (pad16 (length aad)) 0) (replicate (pad16 (length aad')) 0) _ _
        (ap (λ n. length {A = ℕ} (replicate (pad16 n) 0)) na) rest in
    (ea, (cut_front c c' _ _ nc tail).0)
  where
    same_length :
        (a b a' b' : ℕ)
        → length (le_bytes 8 a ++ le_bytes 8 b) ≡ length (le_bytes 8 a' ++ le_bytes 8 b')
    same_length a b a' b' = omega (
      arith,
      length-append (le_bytes 8 a) (le_bytes 8 b),
      length-append (le_bytes 8 a') (le_bytes 8 b'),
      length-le_bytes 8 a,
      length-le_bytes 8 b,
      length-le_bytes 8 a',
      length-le_bytes 8 b',
    )
