-- ===== src/Aead/Keystream.antt =====
-- chacha20poly1305.ts: the stream, byte by byte, and what `decrypt` opens.
use openclaw_webchannel.Common.{ℕ, ◌+◌, ◌/◌, ◌%◌, ◌≡◌, some, get_elem?}
use openclaw_webchannel.Aead.{Bytes, bit_xor, chacha20_block}

-- The byte `i` of a stream that starts at block `counter`: `d` becomes `c`.
abbrev pub IsMasked : Bytes → Bytes → ℕ → ℕ → ℕ → Bytes → Type 0
IsMasked key nonce counter i d cs =
    (block : Bytes) × (k : ℕ) × (chacha20_block key (counter + i / 64) nonce ≡ some block)
    × (get_elem? block (i % 64) ≡ some k)
    × (get_elem? cs i ≡ some (bit_xor d k))
