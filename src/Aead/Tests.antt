-- ===== src/Aead/Tests.antt =====
-- RFC 8439 test vectors, and the theorems at inputs that meet their hypotheses.
use openclaw_webchannel.Common.{ℕ, arith, ◌≡◌, refl, some, [], ◌∷◌, length, replicate}
use openclaw_webchannel.Aead.Mac.{build_mac_input_injective}
use openclaw_webchannel.Aead.Seal.{encrypt_total}
use openclaw_webchannel.Aead.{
  Bytes, encrypt, decrypt, Bytes, chacha20_block, chacha20, poly1305, encrypt, decrypt,
  timing_safe_equal, build_mac_input, chacha20_from, quarter_round,
}

program : Unit {0}
unfolding chacha20_block chacha20_from chacha20 poly1305 encrypt decrypt timing_safe_equal
    build_mac_input quarter_round
program = tt

abbrev count_up : ℕ → ℕ → Bytes
count_up from Prim.Native.Nat.zero = []
count_up from (Prim.Native.Nat.suc n) = from ∷ count_up (Prim.Native.Nat.suc from) n

-- Section 2.3.2: the first words of the key stream.
block_vector :
    (rest : Bytes) × (chacha20_block
        (count_up 0 32)
        1
        (0 ∷ 0 ∷ 0 ∷ 9 ∷ 0 ∷ 0 ∷ 0 ∷ 0x4a ∷ 0 ∷ 0 ∷ 0 ∷ 0 ∷ [])
      ≡ some (0x10 ∷ 0xf1 ∷ 0xe7 ∷ 0xe4 ∷ 0xd1 ∷ 0x3b ∷ 0x59 ∷ 0x15 ∷ rest))
unfolding program
block_vector = (_, refl)

abbrev plain : Bytes
plain = 2 ∷ 3 ∷ []

abbrev sealed_tag : Bytes
sealed_tag =
    77 ∷ 53 ∷ 140 ∷ 97 ∷ 17 ∷ 237 ∷ 116 ∷ 44 ∷ 140 ∷ 174 ∷ 186 ∷ 114 ∷ 25 ∷ 10 ∷ 143 ∷ 50 ∷ []

encrypt_total_example :
    (ciphertext : Bytes) × (tag : Bytes) × (encrypt
        (replicate 32 7)
        (replicate 12 1)
        (2 ∷ 3 ∷ [])
        (9 ∷ [])
      ≡ some (ciphertext, tag))
    × (length ciphertext ≡ 2)
    × (length tag ≡ 16)
    × (decrypt (replicate 32 7) (replicate 12 1) ciphertext tag (9 ∷ []) ≡ some (2 ∷ 3 ∷ []))
encrypt_total_example =
    encrypt_total (replicate 32 7) (replicate 12 1) (2 ∷ 3 ∷ []) (9 ∷ []) (omega arith)
      (omega arith)

build_mac_input_injective_example : (count_up 0 3 ≡ count_up 0 3) × (count_up 5 4 ≡ count_up 5 4)
build_mac_input_injective_example =
    build_mac_input_injective (count_up 0 3) (count_up 0 3) (count_up 5 4) (count_up 5 4)
      (omega arith) (omega arith) (omega arith) (omega arith) refl
