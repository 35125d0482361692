-- ===== src/Pop.antt =====
-- packages/plugin/src/pop-challenge.ts: nonces for the proof of possession, in a bucket for each
-- peer, with pop-signed-message.ts. The clock readings and the random nonce are arguments; the
-- key import and the Ed25519 check of node:crypto are parameters.
pub mod Store
pub mod Proofs
pub mod Promises
pub mod Runs
pub mod Message
mod Tests
use openclaw_webchannel.Common.{
  ℕ, ◌+◌, ◌-◌, Bool, not, ◌&&◌, Option, none, some, List, [], ◌∷◌, ◌++◌, Text, codes, text_Eq,
  nat_Eq, ltb, leb, ◌==◌, if◌then◌else◌, length, sum_by, lookup, insert, erase, keep_values,
}

abbrev pub Bucket : Type 0
Bucket = List (Text × ℕ)

abbrev pub Peers : Type 0
Peers = List (Text × Bucket)

pub record PopChallengeStore : Type 0 where
  pub by_peer : Peers
  pub ttl_ms : ℕ
  pub max_nonces_per_peer : ℕ

abbrev pub default_store : PopChallengeStore
default_store = record { by_peer = []; ttl_ms = 120_000; max_nonces_per_peer = 8 }

pub data PopOp : Type 0 where
  register unregister : PopOp

abbrev pub op_text : PopOp → Text
op_text register = codes "register"
op_text unregister = codes "unregister"

pub pop_signed_message : PopOp → Text → Text → Text
pop_signed_message op peer nonce =
    codes "webchannel-pop:" ++ (op_text op ++ (b':' ∷ (peer ++ (b':' ∷ nonce))))

abbrev pub is_live : ℕ → ℕ → Bool
is_live now expires_at = leb now expires_at

-- The outer loop of `sweep`: expired nonces go, and so does a bucket left empty.
pub sweep_peers : ℕ → Peers → Peers
sweep_peers now [] = []
sweep_peers now ((peer, bucket) ∷ rest) =
    let bucket' = keep_values (is_live now) bucket in
    if length bucket' == 0 then sweep_peers now rest else (peer, bucket') ∷ sweep_peers now rest

pub size : PopChallengeStore → ℕ
size s = sum_by (λ e. length e.1) s.by_peer

pub sweep : PopChallengeStore → ℕ → PopChallengeStore × ℕ
unfolding sweep_peers size
sweep s now =
    let s' : PopChallengeStore = record s { by_peer = sweep_peers now s.by_peer } in
    (s', size s - size s')

-- `while (bucket.size >= max)` drops the oldest entry, which is the first.
pub evict_oldest : ℕ → Bucket → Bucket
evict_oldest most [] = []
evict_oldest most (e ∷ rest) =
    let rest' = evict_oldest most rest in if leb most (length (e ∷ rest)) then rest' else e ∷ rest

abbrev pub found_bucket : Option Bucket → Bucket
found_bucket none = []
found_bucket (some b) = b

abbrev pub bucket_of : Peers → Text → Bucket
bucket_of peers peer = found_bucket (lookup peer peers)

-- `swept_at` and `issued_at` are the two readings of the clock.
pub issue : PopChallengeStore → ℕ → ℕ → Text → Text → PopChallengeStore
unfolding evict_oldest
issue s swept_at issued_at nonce peer =
    let s' = (sweep s swept_at).0 in
    let bucket = evict_oldest s.max_nonces_per_peer (bucket_of s'.by_peer peer) in
    record s' { by_peer = insert peer (insert nonce (issued_at + s.ttl_ms) bucket) s'.by_peer }

pub data Consumed : Type 0 where
  consumed missing expired : Consumed

-- `bucket.delete` changes the object that the outer `Map` holds.
pub delete_nonce : PopChallengeStore → Text → Bucket → Text → PopChallengeStore
delete_nonce s peer bucket nonce =
    let bucket' = erase nonce bucket in
    record s {
      by_peer = if length bucket' == 0 then erase peer s.by_peer else insert peer bucket' s.by_peer;
    }

pub consume : PopChallengeStore → ℕ → Text → Text → PopChallengeStore × Consumed
unfolding delete_nonce
consume s now peer nonce = elim (lookup peer s.by_peer) [
  | none ↦ (s, missing)
  | some bucket ↦ elim (lookup nonce bucket) [
    | none ↦ (s, missing)
    | some expires_at ↦
        if ltb expires_at now
        then (delete_nonce s peer bucket nonce, expired)
        else (delete_nonce s peer bucket nonce, consumed)
  ]
]

pub record PopPublicJwk : Type 0 where
  pub kty : Text
  pub crv : Text
  pub x : Text

pub data PopVerifyReason : Type 0 where
  verified nonce_missing nonce_expired not_ed25519 bad_jwk bad_signature_encoding
        signature_mismatch :
      PopVerifyReason

-- `import_key` is `createPublicKey`, `none` where it throws; `check` is `verify(null, …)` on the
-- signature that `Buffer.from(…, "base64url")`, `decode`, gives.
module _ {Key Signature : Type 0} (import_key : PopPublicJwk → Option Key)
    (decode : Text → Option Signature) (check : Text → Key → Signature → Bool) where
  pub judge : PopOp → Text → Text → Text → PopPublicJwk → PopVerifyReason
  judge op peer nonce signature jwk =
      if not (jwk.kty == codes "OKP" && jwk.crv == codes "Ed25519")
      then not_ed25519
      else elim (import_key jwk) [
        | none ↦ bad_jwk
        | some key ↦ elim (decode signature) [
          | none ↦ bad_signature_encoding
          | some sig ↦
              if check (pop_signed_message op peer nonce) key sig
              then verified
              else signature_mismatch
        ]
      ]

  pub verify :
      PopChallengeStore
      → ℕ
      → PopOp
      → Text
      → Text
      → Text
      → PopPublicJwk
      → PopChallengeStore × PopVerifyReason
  unfolding consume judge
  verify s now op peer nonce signature jwk =
      let (s', found) = consume s now peer nonce in
      (
        s',
        elim found [
          | consumed ↦ judge op peer nonce signature jwk
          | missing ↦ nonce_missing
          | expired ↦ nonce_expired
        ],
      )
