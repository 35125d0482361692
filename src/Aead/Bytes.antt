-- ===== src/Aead/Bytes.antt =====
-- Facts about the bytes of chacha20poly1305.ts: exclusive or, little-endian numbers and the
-- comparison of tags.
use Prim.Native.Nat.{bit_or, bit_xor}
use openclaw_webchannel.Common.{
  ℕ, zero, suc, ◌/◌, ◌≤◌, ◌≡◌, min, refl, ap, ◌↔◌, true, [], ◌∷◌, nat_Eq, length, arith,
}
use openclaw_webchannel.Aead.Bits.{bit_xor_twice, bit_xor_self, bit_xor-zero, bit_or-zero}
use openclaw_webchannel.Aead.{Bytes, xor_bytes, le_bytes, difference, timing_safe_equal}

pub length-xor_bytes : (ds ks : Bytes) → length (xor_bytes ds ks) ≡ min (length ds) (length ks)
unfolding xor_bytes
length-xor_bytes [] ks = omega arith
length-xor_bytes (d ∷ ds) [] = omega arith
length-xor_bytes (d ∷ ds) (k ∷ ks) = omega (arith, length-xor_bytes ds ks)

pub xor_bytes_twice : (ds ks : Bytes) → length ds ≤ length ks → xor_bytes (xor_bytes ds ks) ks ≡ ds
unfolding xor_bytes
xor_bytes_twice [] ks h = refl
xor_bytes_twice (d ∷ ds) [] h = absurd (omega arith)
xor_bytes_twice (d ∷ ds) (k ∷ ks) h =
    rw (bit_xor_twice d k, xor_bytes_twice ds ks (omega arith)) refl

pub length-le_bytes : (n v : ℕ) → length (le_bytes n v) ≡ n
unfolding le_bytes
length-le_bytes zero v = refl
length-le_bytes (suc n) v = ap suc (length-le_bytes n (v / 256))

difference-zero :
    (diff : ℕ) (as' bs : Bytes)
    → length as' ≡ length bs
    → difference diff as' bs ≡ 0
    → (diff ≡ 0) × (as' ≡ bs)
unfolding difference
difference-zero diff [] [] l h = (h, refl)
difference-zero diff [] (b ∷ bs) l h = absurd (omega arith)
difference-zero diff (a ∷ as') [] l h = absurd (omega arith)
difference-zero diff (a ∷ as') (b ∷ bs) l h =
    let (o, e) = difference-zero (bit_or diff (bit_xor a b)) as' bs (omega arith) h in
    let (d0, x0) = bit_or-zero diff (bit_xor a b) o in (d0, rw (bit_xor-zero a b x0, e) refl)

difference_refl : (as' : Bytes) → difference 0 as' as' ≡ 0
unfolding difference
difference_refl [] = refl
difference_refl (a ∷ as') = rw (bit_xor_self a) (difference_refl as')

-- The comparison that does not stop early decides equality.
pub timing_safe_equal_iff : (as' bs : Bytes) → (timing_safe_equal as' bs ≡ true) ↔ (as' ≡ bs)
unfolding timing_safe_equal
timing_safe_equal_iff as' bs = (
  λ h. (difference-zero 0 as' bs (ground arith) (ground arith)).1,
  λ e. ground (arith, difference_refl as', e),
)
