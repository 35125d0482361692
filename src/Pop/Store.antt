-- ===== src/Pop/Store.antt =====
-- pop-challenge.ts: the buckets of a store, and what each call does to a stored nonce.
use openclaw_webchannel.Common.{
  ℕ, subst, sym, Bool-cases, ◌≤◌, ◌<◌, ◌≡◌, max, refl, Bool, Option, none, some, [], ◌∷◌, Text,
  text_Eq, text_eq_iff, nat_Eq, ◌==◌, if◌then◌else◌, length, lookup, insert, erase, keep_values,
  keep_value, IsDistinct, lookup-keep_values, keep_values-IsDistinct, All, arith, Option-cases, inl,
  inr,
}
use openclaw_webchannel.Pop.{
  Bucket, Peers, PopChallengeStore, is_live, sweep_peers, sweep, bucket_of, found_bucket,
}

-- When the nonce of a peer expires, if the store has it.
abbrev pub expiry : PopChallengeStore → Text → Text → Option ℕ
expiry s peer nonce = lookup nonce (bucket_of s.by_peer peer)

pub record IsBucket (most : ℕ) (b : Bucket) : Type 0 where
  pub distinct : IsDistinct b
  pub occupied : 0 < length b
  pub capped : length b ≤ max 1 most

abbrev pub AllBuckets : ℕ → Peers → Type 0
AllBuckets most peers = All (λ e. IsBucket most e.1) peers

pub record IsValid (s : PopChallengeStore) : Type 0 where
  pub peers : IsDistinct s.by_peer
  pub buckets : AllBuckets s.max_nonces_per_peer s.by_peer

length-keep_values-le : (p : ℕ → Bool) (b : Bucket) → length (keep_values p b) ≤ length b
length-keep_values-le p [] = omega arith
length-keep_values-le p (e ∷ b) = ground (arith, length-keep_values-le p b)

pub lookup-length_zero : (n : Text) (b : Bucket) → length b ≡ 0 → lookup n b ≡ none
unfolding lookup
lookup-length_zero n [] h = refl
lookup-length_zero n (e ∷ b) h = absurd (omega arith)

abbrev kept_bucket : ℕ → Bucket → Option Bucket
kept_bucket now b = let b' = keep_values (is_live now) b in if length b' == 0 then none else some b'

abbrev swept : ℕ → Option Bucket → Option Bucket
swept now none = none
swept now (some b) = kept_bucket now b

lookup-sweep_peers :
    (now : ℕ) (peers : Peers) (peer : Text)
    → IsDistinct peers
    → lookup peer (sweep_peers now peers) ≡ swept now (lookup peer peers)
unfolding sweep_peers lookup
lookup-sweep_peers now [] peer d = refl
lookup-sweep_peers now ((q, b) ∷ rest) peer d =
    ground (arith, lookup-sweep_peers now rest peer d.1, text_eq_iff q peer)

sweep_peers-IsDistinct :
    (now : ℕ) (peers : Peers) → IsDistinct peers → IsDistinct (sweep_peers now peers)
unfolding sweep_peers
sweep_peers-IsDistinct now [] d = tt
sweep_peers-IsDistinct now ((q, b) ∷ rest) d =
    ground (arith, lookup-sweep_peers now rest q d.1, sweep_peers-IsDistinct now rest d.1)

sweep_peers-AllBuckets :
    (now most : ℕ) (peers : Peers) → AllBuckets most peers → AllBuckets most (sweep_peers now peers)
unfolding sweep_peers
sweep_peers-AllBuckets now most [] h = tt
sweep_peers-AllBuckets now most ((q, b) ∷ rest) (here, h) =
    elim (Bool-cases (length (keep_values (is_live now) b) == 0)) [
      | inl e ↦ rw e (sweep_peers-AllBuckets now most rest h)
      | inr e ↦ rw e (
        record {
          distinct = keep_values-IsDistinct (is_live now) b here.distinct;
          occupied = ground arith;
          capped = omega (arith, here.capped, length-keep_values-le (is_live now) b);
        },
        sweep_peers-AllBuckets now most rest h,
      )
    ]

pub sweep-IsValid : (s : PopChallengeStore) (now : ℕ) → IsValid s → IsValid (sweep s now).0
unfolding sweep
sweep-IsValid s now v = record {
  peers = sweep_peers-IsDistinct now s.by_peer v.peers;
  buckets = sweep_peers-AllBuckets now s.max_nonces_per_peer s.by_peer v.buckets;
}

All-lookup :
    (most : ℕ) (peers : Peers) (peer : Text) (b : Bucket)
    → AllBuckets most peers
    → lookup peer peers ≡ some b
    → IsBucket most b
unfolding lookup
All-lookup most [] peer b h e = cc
All-lookup most ((q, c) ∷ rest) peer b h e = elim (Bool-cases (q == peer)) [
  | inl f ↦ subst (IsBucket most) (ground (arith, f)) h.0
  | inr f ↦ All-lookup most rest peer b h.1 (ground (arith, f))
]

pub bucket_of-IsBucket :
    (s : PopChallengeStore) (peer : Text) (b : Bucket)
    → IsValid s
    → lookup peer s.by_peer ≡ some b
    → IsBucket s.max_nonces_per_peer b
bucket_of-IsBucket s peer b v e = All-lookup s.max_nonces_per_peer s.by_peer peer b v.buckets e

pub bucket_of-IsDistinct :
    (s : PopChallengeStore) (peer : Text) → IsValid s → IsDistinct (bucket_of s.by_peer peer)
bucket_of-IsDistinct s peer v = elim (Option-cases (lookup peer s.by_peer)) [
  | inl e ↦ subst (λ o. IsDistinct (found_bucket o)) (sym e) tt
  | inr (b, e) ↦
      subst (λ o. IsDistinct (found_bucket o)) (sym e) (bucket_of-IsBucket s peer b v e).distinct
]

pub AllBuckets-insert :
    (most : ℕ) (peers : Peers) (peer : Text) (b : Bucket)
    → AllBuckets most peers
    → IsBucket most b
    → AllBuckets most (insert peer b peers)
unfolding insert
AllBuckets-insert most [] peer b h k = (k, tt)
AllBuckets-insert most ((q, c) ∷ rest) peer b h k = elim (Bool-cases (q == peer)) [
  | inl f ↦ rw f (k, h.1)
  | inr f ↦ rw f (h.0, AllBuckets-insert most rest peer b h.1 k)
]

pub AllBuckets-erase :
    (most : ℕ) (peers : Peers) (peer : Text)
    → AllBuckets most peers
    → AllBuckets most (erase peer peers)
unfolding erase
AllBuckets-erase most [] peer h = tt
AllBuckets-erase most ((q, c) ∷ rest) peer h = elim (Bool-cases (q == peer)) [
  | inl f ↦ rw f (AllBuckets-erase most rest peer h.1)
  | inr f ↦ rw f (h.0, AllBuckets-erase most rest peer h.1)
]

-- A sweep leaves exactly the nonces that are still live.
pub expiry-sweep :
    (s : PopChallengeStore) (now : ℕ) (peer nonce : Text)
    → IsValid s
    → expiry (sweep s now).0 peer nonce ≡ keep_value (is_live now) (expiry s peer nonce)
unfolding sweep lookup
expiry-sweep s now peer nonce v = elim (Option-cases (lookup peer s.by_peer)) [
  | inl e ↦ ground (arith, lookup-sweep_peers now s.by_peer peer v.peers)
  | inr (b, e) ↦ ground (
    arith,
    lookup-sweep_peers now s.by_peer peer v.peers,
    lookup-keep_values (is_live now) nonce b (bucket_of-IsBucket s peer b v e).distinct,
    lookup-length_zero nonce (keep_values (is_live now) b),
  )
]
