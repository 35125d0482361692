-- ===== src/Pop/Proofs.antt =====
-- pop-challenge.ts: `issue` and `consume` on a valid store, and the cases of `consume`.
use openclaw_webchannel.Common.{
  ℕ, ◌+◌, ◌≤◌, ◌<◌, ◌≡◌, max, ◌&&◌, none, some, [], ◌∷◌, Text, text_Eq, text_eq_iff, nat_Eq, ltb,
  ◌==◌, if◌then◌else◌, length, lookup, insert, erase, IsDistinct, lookup-insert, lookup-erase,
  insert-IsDistinct, erase-IsDistinct, arith, Option-cases, Bool-cases, inl, inr, ◌⊎◌,
}
use openclaw_webchannel.Pop.{
  Bucket, PopChallengeStore, sweep, evict_oldest, bucket_of, issue, consumed, missing, expired,
  delete_nonce, consume,
}
use openclaw_webchannel.Pop.Store.{
  expiry, IsBucket, IsValid, sweep-IsValid, bucket_of-IsBucket, bucket_of-IsDistinct,
  AllBuckets-insert, lookup-length_zero, AllBuckets-erase,
}

evict_oldest-suffix :
    (most : ℕ) (b : Bucket)
    → (length (evict_oldest most b) + 1 ≤ max 1 most) × (length (evict_oldest most b) ≤ length b)
unfolding evict_oldest
evict_oldest-suffix most [] = omega arith
evict_oldest-suffix most (e ∷ b) = ground (arith, evict_oldest-suffix most b)

evict_oldest-IsDistinct : (most : ℕ) (b : Bucket) → IsDistinct b → IsDistinct (evict_oldest most b)
unfolding evict_oldest
evict_oldest-IsDistinct most [] d = tt
evict_oldest-IsDistinct most (e ∷ b) d = ground (arith, evict_oldest-IsDistinct most b d.1)

length-insert :
    (n : Text) (t : ℕ) (b : Bucket)
    → (length (insert n t b) ≤ length b + 1) × (0 < length (insert n t b))
unfolding insert
length-insert n t [] = omega arith
length-insert n t (e ∷ b) = ground (arith, length-insert n t b)

length-erase-le : (n : Text) (b : Bucket) → length (erase n b) ≤ length b
unfolding erase
length-erase-le n [] = omega arith
length-erase-le n (e ∷ b) = ground (arith, length-erase-le n b)

issued-IsBucket :
    (s : PopChallengeStore) (t : ℕ) (nonce peer : Text)
    → IsValid s
    → IsBucket s.max_nonces_per_peer
        (insert nonce t (evict_oldest s.max_nonces_per_peer (bucket_of s.by_peer peer)))
issued-IsBucket s t nonce peer v = record {
  distinct =
      insert-IsDistinct nonce t _ (evict_oldest-IsDistinct _ _ (bucket_of-IsDistinct s peer v));
  occupied = (length-insert nonce t _).1;
  capped = omega (
    arith,
    length-insert nonce t (evict_oldest s.max_nonces_per_peer (bucket_of s.by_peer peer)),
    evict_oldest-suffix s.max_nonces_per_peer (bucket_of s.by_peer peer),
  );
}

pub issue-IsValid :
    (s : PopChallengeStore) (t1 t2 : ℕ) (nonce peer : Text)
    → IsValid s
    → IsValid (issue s t1 t2 nonce peer)
unfolding issue sweep
issue-IsValid s t1 t2 nonce peer v =
    let v' = sweep-IsValid s t1 v in
    let s' = (sweep s t1).0 in
    record {
      peers = insert-IsDistinct peer _ s'.by_peer v'.peers;
      buckets =
          AllBuckets-insert s'.max_nonces_per_peer s'.by_peer peer _ v'.buckets
            (issued-IsBucket s' (t2 + s.ttl_ms) nonce peer v');
    }

delete_nonce-IsValid :
    (s : PopChallengeStore) (peer : Text) (b : Bucket) (nonce : Text)
    → IsValid s
    → lookup peer s.by_peer ≡ some b
    → IsValid (delete_nonce s peer b nonce)
unfolding delete_nonce
delete_nonce-IsValid s peer b nonce v e = elim (Bool-cases (length (erase nonce b) == 0)) [
  | inl gone ↦ simp gone (record {
    peers = erase-IsDistinct peer s.by_peer v.peers;
    buckets = AllBuckets-erase s.max_nonces_per_peer s.by_peer peer v.buckets;
  })
  | inr left ↦
      let here = bucket_of-IsBucket s peer b v e in
      simp left (record {
        peers = insert-IsDistinct peer _ s.by_peer v.peers;
        buckets =
            AllBuckets-insert s.max_nonces_per_peer s.by_peer peer (erase nonce b) v.buckets
              (record {
                distinct = erase-IsDistinct nonce b here.distinct;
                occupied = ground (arith, left);
                capped = omega (arith, here.capped, length-erase-le nonce b);
              });
      })
]

pub expiry-issue_self :
    (s : PopChallengeStore) (t1 t2 : ℕ) (nonce peer : Text)
    → expiry (issue s t1 t2 nonce peer) peer nonce ≡ some (t2 + s.ttl_ms)
unfolding issue
expiry-issue_self s t1 t2 nonce peer =
    let s' = (sweep s t1).0 in
    let b = evict_oldest s.max_nonces_per_peer (bucket_of s'.by_peer peer) in
    ground (
      arith,
      lookup-insert peer peer (insert nonce (t2 + s.ttl_ms) b) s'.by_peer,
      lookup-insert nonce nonce (t2 + s.ttl_ms) b,
      text_eq_iff peer peer,
      text_eq_iff nonce nonce,
    )

-- The possible results of `consume`.
abbrev pub ConsumeCase : PopChallengeStore → ℕ → Text → Text → Type 0
ConsumeCase s now peer nonce =
    ((expiry s peer nonce ≡ none) × (consume s now peer nonce ≡ (s, missing)))
    ⊎ ((b : Bucket) × (t : ℕ) × (lookup peer s.by_peer ≡ some b)
        × (expiry s peer nonce ≡ some t)
        × (consume s now peer nonce
            ≡ (delete_nonce s peer b nonce, if ltb t now then expired else consumed)))

pub consume_cases :
    (s : PopChallengeStore) (now : ℕ) (peer nonce : Text) → ConsumeCase s now peer nonce
unfolding consume lookup
consume_cases s now peer nonce = elim (Option-cases (lookup peer s.by_peer)) [
  | inl e ↦ inl (ground arith, ground arith)
  | inr (b, e) ↦ elim (Option-cases (lookup nonce b)) [
    | inl f ↦ inl (ground arith, ground arith)
    | inr (t, f) ↦ inr (b, t, e, ground arith, ground arith)
  ]
]

pub consume-IsValid :
    (s : PopChallengeStore) (now : ℕ) (peer nonce : Text)
    → IsValid s
    → IsValid (consume s now peer nonce).0
consume-IsValid s now peer nonce v = elim (consume_cases s now peer nonce) [
  | inl (_, e) ↦ rw e v
  | inr (b, t, found, _, e) ↦ rw e (delete_nonce-IsValid s peer b nonce v found)
]

-- Deleting a nonce hides it, and nothing else.
pub expiry-delete_nonce :
    (s : PopChallengeStore) (peer : Text) (b : Bucket) (nonce q n : Text)
    → lookup peer s.by_peer ≡ some b
    → expiry (delete_nonce s peer b nonce) q n
      ≡ (if peer == q && nonce == n then none else expiry s q n)
unfolding delete_nonce lookup
expiry-delete_nonce s peer b nonce q n e = ground (
  arith,
  lookup-erase nonce n b,
  lookup-erase peer q s.by_peer,
  lookup-insert peer q (erase nonce b) s.by_peer,
  lookup-length_zero n (erase nonce b),
  text_eq_iff peer q,
)
