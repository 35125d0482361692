-- ===== src/Aead.antt =====
-- packages/client/src/chacha20poly1305.ts: the browser's AEAD over lists of bytes. A `Uint32Array`
-- is a list of words, a `BigInt` a natural number; `none` is the RangeError of a `DataView` on a key
-- or a nonce that is too short, or the failed authentication.
pub mod Bits
pub mod Bytes
pub mod Stream
pub mod Seal
pub mod Keystream
pub mod Mac
mod Tests
use Prim.Native.Nat.{bit_and, bit_or, bit_xor}
use openclaw_webchannel.Common.{
  ℕ, zero, suc, ◌+◌, ◌-◌, ◌*◌, ◌/◌, ◌%◌, ◌^◌, Bool, true, false, not, ◌&&◌, ◌||◌, Option, none,
  some, List, [], ◌∷◌, ◌++◌, ltb, ◌==◌, nat_Eq, if◌then◌else◌, length, get_elem?, set, take, drop,
  replicate,
}

abbrev pub Bytes : Type 0
Bytes = List ℕ

abbrev pub word : ℕ
word = 2 ^ 32

-- `s[i]!`; the indices of the quarter round are in range.
abbrev at : List ℕ → ℕ → ℕ
at s i = elim (get_elem? s i) [ none ↦ 0 | some v ↦ v ]

pub rotl32 : ℕ → ℕ → ℕ
rotl32 n r = bit_or (n * 2 ^ r % word) (n / 2 ^ (32 - r))

-- `s[x] += s[y]; s[z] = rotl32(s[z] ^ s[x], r)`.
add_rotate : List ℕ → ℕ → ℕ → ℕ → ℕ → List ℕ
unfolding rotl32
add_rotate s x y z r =
    let s' = set s x ((at s x + at s y) % word) in set s' z (rotl32 (bit_xor (at s' z) (at s' x)) r)

pub quarter_round : List ℕ → ℕ → ℕ → ℕ → ℕ → List ℕ
unfolding add_rotate
quarter_round s a b c d =
    let s1 = add_rotate s a b d 16 in
    let s2 = add_rotate s1 c d b 12 in let s3 = add_rotate s2 a b d 8 in add_rotate s3 c d b 7

pub double_round : List ℕ → List ℕ
unfolding quarter_round
double_round s0 =
    let s1 = quarter_round s0 0 4 8 12 in
    let s2 = quarter_round s1 1 5 9 13 in
    let s3 = quarter_round s2 2 6 10 14 in
    let s4 = quarter_round s3 3 7 11 15 in
    let s5 = quarter_round s4 0 5 10 15 in
    let s6 = quarter_round s5 1 6 11 12 in
    let s7 = quarter_round s6 2 7 8 13 in quarter_round s7 3 4 9 14

pub rounds : ℕ → List ℕ → List ℕ
unfolding double_round
rounds zero s = s
rounds (suc n) s = rounds n (double_round s)

-- A little-endian number; the source joins the shifted bytes by `|`.
pub le_number : Bytes → ℕ
le_number [] = 0
le_number (b ∷ bs) = b + 256 * le_number bs

-- The lowest `n` bytes of a number, lowest first.
pub le_bytes : ℕ → ℕ → Bytes
le_bytes zero v = []
le_bytes (suc n) v = v % 256 ∷ le_bytes n (v / 256)

-- `n` little-endian words from the front.
pub le_words : ℕ → Bytes → List ℕ
unfolding le_number
le_words zero bs = []
le_words (suc n) bs = le_number (take 4 bs) ∷ le_words n (drop 4 bs)

pub initial_state : Bytes → ℕ → Bytes → List ℕ
unfolding le_words
initial_state key counter nonce =
    0x61707865
    ∷ 0x3320646e
    ∷ 0x79622d32
    ∷ 0x6b206574
    ∷ (le_words 8 key ++ (counter % word ∷ le_words 3 nonce))

-- The last loop of `chacha20Block`.
pub serialize : List ℕ → List ℕ → Bytes
unfolding le_bytes
serialize [] init = []
serialize (s ∷ ss) [] = []
serialize (s ∷ ss) (i ∷ is) = le_bytes 4 ((s + i) % word) ++ serialize ss is

pub chacha20_block : Bytes → ℕ → Bytes → Option Bytes
unfolding initial_state rounds serialize
chacha20_block key counter nonce =
    if ltb (length key) 32 || ltb (length nonce) 12
    then none
    else (let init = initial_state key counter nonce in some (serialize (rounds 10 init) init))

pub xor_bytes : Bytes → Bytes → Bytes
xor_bytes [] ks = []
xor_bytes (d ∷ ds) [] = []
xor_bytes (d ∷ ds) (k ∷ ks) = bit_xor d k ∷ xor_bytes ds ks

-- The loop over blocks, on fuel for the blocks left; `chacha20` gives a block to each byte.
pub chacha20_from : ℕ → Bytes → Bytes → ℕ → Bytes → Option Bytes
unfolding xor_bytes
chacha20_from fuel key nonce counter [] = some []
chacha20_from zero key nonce counter (d ∷ ds) = none
chacha20_from (suc fuel) key nonce counter (d ∷ ds) = elim (chacha20_block key counter nonce) [
  | none ↦ none
  | some block ↦ elim (chacha20_from fuel key nonce (counter + 1) (drop 64 (d ∷ ds))) [
    | none ↦ none
    | some rest ↦ some (xor_bytes (take 64 (d ∷ ds)) block ++ rest)
  ]
]

pub chacha20 : Bytes → Bytes → ℕ → Bytes → Option Bytes
chacha20 key nonce counter bytes = chacha20_from (length bytes) key nonce counter bytes

abbrev pub prime : ℕ
prime = 2 ^ 130 - 5

-- The clamped bytes of `r`: the source masks by index.
pub clamp : ℕ → Bytes → Bytes
clamp i [] = []
clamp i (b ∷ bs) =
    (if i % 4 == 3
      then bit_and b 0x0f
      else if i % 4 == 0 && not (i == 0)
      then bit_and b 0xfc
      else b)
    ∷ clamp (suc i) bs

-- One round of the accumulation for each chunk of 16 bytes.
pub accumulate : ℕ → ℕ → ℕ → Bytes → ℕ
unfolding le_number
accumulate fuel r a [] = a
accumulate zero r a (m ∷ ms) = a
accumulate (suc fuel) r a (m ∷ ms) =
    let chunk = take 16 (m ∷ ms) in
    let n = le_number chunk + 2 ^ (8 * length chunk) in
    accumulate fuel r ((a + n) * r % prime) (drop 16 (m ∷ ms))

pub poly1305 : Bytes → Bytes → Bytes
unfolding clamp accumulate le_number le_bytes
poly1305 key msg =
    let r = le_number (clamp 0 (take 16 key)) in
    let s = le_number (take 16 (drop 16 key)) in
    le_bytes 16 ((accumulate (length msg) r 0 msg + s) % 2 ^ 128)

pub difference : ℕ → Bytes → Bytes → ℕ
difference diff [] bs = diff
difference diff (a ∷ as') [] = diff
difference diff (a ∷ as') (b ∷ bs) = difference (bit_or diff (bit_xor a b)) as' bs

pub timing_safe_equal : Bytes → Bytes → Bool
unfolding difference
timing_safe_equal a b = if not (length a == length b) then false else difference 0 a b == 0

pub pad16 : ℕ → ℕ
pad16 len = (16 - len % 16) % 16

pub build_mac_input : Bytes → Bytes → Bytes
unfolding pad16 le_bytes
build_mac_input aad ciphertext =
    aad
    ++ (replicate (pad16 (length aad)) 0
        ++ (ciphertext
            ++ (replicate (pad16 (length ciphertext)) 0
                ++ (le_bytes 8 (length aad) ++ le_bytes 8 (length ciphertext)))))

pub encrypt : Bytes → Bytes → Bytes → Bytes → Option (Bytes × Bytes)
encrypt key nonce plaintext aad = elim (chacha20_block key 0 nonce) [
  | none ↦ none
  | some block ↦ elim (chacha20 key nonce 1 plaintext) [
    | none ↦ none
    | some ciphertext ↦ some (ciphertext, poly1305 (take 32 block) (build_mac_input aad ciphertext))
  ]
]

pub decrypt : Bytes → Bytes → Bytes → Bytes → Bytes → Option Bytes
decrypt key nonce ciphertext tag aad = elim (chacha20_block key 0 nonce) [
  | none ↦ none
  | some block ↦
      if timing_safe_equal tag (poly1305 (take 32 block) (build_mac_input aad ciphertext))
      then chacha20 key nonce 1 ciphertext
      else none
]
