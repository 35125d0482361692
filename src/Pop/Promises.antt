-- ===== src/Pop/Promises.antt =====
-- What `issue`, `consume` and `verify` promise.
use openclaw_webchannel.Common.{
  ℕ, ◌+◌, ◌≤◌, ◌≡◌, ◌≢◌, ◌↔◌, Bool, true, Option, none, some, Text, text_Eq, text_eq_iff, nat_Eq,
  insert, keep_value, lookup-insert, arith, inl, inr,
}
use openclaw_webchannel.Pop.{
  PopChallengeStore, is_live, sweep, evict_oldest, bucket_of, issue, consumed, missing, consume,
  PopOp, PopPublicJwk, verified, nonce_missing, pop_signed_message, judge, verify,
}
use openclaw_webchannel.Pop.Store.{expiry, IsValid, expiry-sweep}
use openclaw_webchannel.Pop.Proofs.{expiry-issue_self, consume_cases, expiry-delete_nonce}

-- A call for one peer leaves every nonce of another peer that a sweep at its first clock reading
-- leaves, with its deadline: no peer can evict another's challenge.
pub expiry-issue_other :
    (s : PopChallengeStore) (t1 t2 : ℕ) (nonce peer q n : Text)
    → IsValid s
    → peer ≢ q
    → expiry (issue s t1 t2 nonce peer) q n ≡ keep_value (is_live t1) (expiry s q n)
unfolding issue
expiry-issue_other s t1 t2 nonce peer q n v ne =
    let s' = (sweep s t1).0 in
    ground (
      arith,
      lookup-insert peer q
          (insert nonce (t2 + s.ttl_ms)
            (evict_oldest s.max_nonces_per_peer (bucket_of s'.by_peer peer)))
          s'.by_peer,
      text_eq_iff peer q,
      expiry-sweep s t1 q n v,
    )

-- A nonce that was just issued expires the time to live after its second clock reading, and up to
-- then `consume` takes it.
pub consume-issue :
    (s : PopChallengeStore) (t1 t2 now : ℕ) (nonce peer : Text)
    → now ≤ t2 + s.ttl_ms
    → (expiry (issue s t1 t2 nonce peer) peer nonce ≡ some (t2 + s.ttl_ms))
      × ((consume (issue s t1 t2 nonce peer) now peer nonce).1 ≡ consumed)
consume-issue s t1 t2 now nonce peer h =
    let e = expiry-issue_self s t1 t2 nonce peer in
    (e, ground (arith, consume_cases (issue s t1 t2 nonce peer) now peer nonce, e))

consumed-live :
    (s : PopChallengeStore) (now : ℕ) (peer nonce : Text)
    → (consume s now peer nonce).1 ≡ consumed
    → (t : ℕ) × (expiry s peer nonce ≡ some t) × (now ≤ t)
consumed-live s now peer nonce e = elim (consume_cases s now peer nonce) [
  | inl (_, f) ↦ absurd (ground (arith, f))
  | inr (b, t, _, at, f) ↦ (t, at, ground (arith, f))
]

live-consumed :
    (s : PopChallengeStore) (now : ℕ) (peer nonce : Text) (t : ℕ)
    → expiry s peer nonce ≡ some t
    → now ≤ t
    → (consume s now peer nonce).1 ≡ consumed
live-consumed s now peer nonce t e h = ground (arith, consume_cases s now peer nonce)

consume_gone :
    (s : PopChallengeStore) (now : ℕ) (peer nonce : Text)
    → expiry (consume s now peer nonce).0 peer nonce ≡ none
consume_gone s now peer nonce = elim (consume_cases s now peer nonce) [
  | inl (gone, f) ↦ rw f gone
  | inr (b, t, found, _, f) ↦ rw f (
      ground (
        arith,
        expiry-delete_nonce s peer b nonce peer nonce found,
        text_eq_iff peer peer,
        text_eq_iff nonce nonce,
      ))
]

consume_missing :
    (s : PopChallengeStore) (now : ℕ) (peer nonce : Text)
    → expiry s peer nonce ≡ none
    → consume s now peer nonce ≡ (s, missing)
consume_missing s now peer nonce e = elim (consume_cases s now peer nonce) [
  | inl (_, f) ↦ f
  | inr (b, t, _, at, f) ↦ absurd (ground arith)
]

-- `consume` takes a nonce only if that peer has it unexpired; afterwards the nonce is gone, whatever
-- the result, and a replay at any time is refused and changes nothing.
pub consume_single_use :
    (s : PopChallengeStore) (now later : ℕ) (peer nonce : Text)
    → let s' = (consume s now peer nonce).0 in
      (((consume s now peer nonce).1 ≡ consumed)
        ↔ ((t : ℕ) × (expiry s peer nonce ≡ some t) × (now ≤ t)))
      × (consume s' later peer nonce ≡ (s', missing))
consume_single_use s now later peer nonce = (
  (consumed-live s now peer nonce, λ p. live-consumed s now peer nonce p.0 p.1 p.2),
  consume_missing (consume s now peer nonce).0 later peer nonce (consume_gone s now peer nonce),
)

module _ {Key Signature : Type 0} (import_key : PopPublicJwk → Option Key)
    (decode : Text → Option Signature) (check : Text → Key → Signature → Bool) where
  judge-verified :
      (op : PopOp) (peer nonce signature : Text) (jwk : PopPublicJwk)
      → judge import_key decode check op peer nonce signature jwk ≡ verified
      → (key : Key) × (sig : Signature) × (import_key jwk ≡ some key)
        × (decode signature ≡ some sig)
        × (check (pop_signed_message op peer nonce) key sig ≡ true)
  unfolding judge
  judge-verified op peer nonce signature jwk e = ground arith

  -- A proof is verified only if the peer held the nonce unexpired and the imported key accepts the
  -- decoded signature on the message of exactly this operation, peer and nonce.
  pub verify_sound :
      (s : PopChallengeStore) (now : ℕ) (op : PopOp) (peer nonce signature : Text)
      (jwk : PopPublicJwk)
      → (verify import_key decode check s now op peer nonce signature jwk).1 ≡ verified
      → (t : ℕ) × (key : Key) × (sig : Signature) × (expiry s peer nonce ≡ some t)
        × (now ≤ t)
        × (import_key jwk ≡ some key)
        × (decode signature ≡ some sig)
        × (check (pop_signed_message op peer nonce) key sig ≡ true)
  unfolding verify
  verify_sound s now op peer nonce signature jwk e =
      let (t, at, h) = consumed-live s now peer nonce (ground (arith, e)) in
      let ok : judge import_key decode check op peer nonce signature jwk ≡ verified =
        ground (arith, e) in
      let (key, sig, k, d, c) = judge-verified op peer nonce signature jwk ok in
      (t, key, sig, at, h, k, d, c)

  -- Any attempt burns the nonce: every later proof with it, for any operation, is refused as
  -- `nonce_missing`.
  pub verify_burns :
      (s : PopChallengeStore) (now later : ℕ) (op op' : PopOp)
      (peer nonce signature signature' : Text) (jwk jwk' : PopPublicJwk)
      → let s' = (verify import_key decode check s now op peer nonce signature jwk).0 in
        (verify import_key decode check s' later op' peer nonce signature' jwk').1 ≡ nonce_missing
  unfolding verify
  verify_burns s now later op op' peer nonce signature signature' jwk jwk' = ground (
    arith,
    consume_missing (consume s now peer nonce).0 later peer nonce (consume_gone s now peer nonce),
  )
