-- ===== src/Pop/Runs.antt =====
-- Any sequence of calls on the store.
use openclaw_webchannel.Common.{
  ℕ, ◌≤◌, ◌≡◌, ◌∙◌, refl, some, List, [], ◌∷◌, Text, text_Eq, nat_Eq, length, lookup, arith,
}
use openclaw_webchannel.Pop.{Bucket, PopChallengeStore, sweep, issue, delete_nonce, consume}
use openclaw_webchannel.Pop.Store.{IsValid, sweep-IsValid, bucket_of-IsBucket}
use openclaw_webchannel.Pop.Proofs.{issue-IsValid, consume-IsValid}

-- Which calls other code makes.
pub data Call : Type 0 where
  issues : ℕ → ℕ → Text → Text → Call
  consumes : ℕ → Text → Text → Call
  sweeps : ℕ → Call

unfoldable pub step : PopChallengeStore → Call → PopChallengeStore
step s (issues t1 t2 nonce peer) = issue s t1 t2 nonce peer
step s (consumes now peer nonce) = (consume s now peer nonce).0
step s (sweeps now) = (sweep s now).0

unfoldable pub run : PopChallengeStore → List Call → PopChallengeStore
run s [] = s
run s (c ∷ cs) = run (step s c) cs

step-IsValid : (s : PopChallengeStore) (c : Call) → IsValid s → IsValid (step s c)
unfolding step
step-IsValid s (issues t1 t2 nonce peer) v = issue-IsValid s t1 t2 nonce peer v
step-IsValid s (consumes now peer nonce) v = consume-IsValid s now peer nonce v
step-IsValid s (sweeps now) v = sweep-IsValid s now v

pub run-IsValid : (s : PopChallengeStore) (cs : List Call) → IsValid s → IsValid (run s cs)
unfolding run
run-IsValid s [] v = v
run-IsValid s (c ∷ cs) v = run-IsValid (step s c) cs (step-IsValid s c v)

step_cap :
    (s : PopChallengeStore) (c : Call) → (step s c).max_nonces_per_peer ≡ s.max_nonces_per_peer
unfolding step issue sweep consume delete_nonce
step_cap s (sweeps now) = refl
step_cap s c = ground arith

run_cap :
    (s : PopChallengeStore) (cs : List Call)
    → (run s cs).max_nonces_per_peer ≡ s.max_nonces_per_peer
unfolding run
run_cap s [] = refl
run_cap s (c ∷ cs) = run_cap (step s c) cs ∙ step_cap s c

-- After any calls on a store that starts empty with a positive cap, every bucket that the store
-- keeps holds at least one nonce and at most the cap.
pub run_capped :
    (ttl most : ℕ) (cs : List Call) (peer : Text) (b : Bucket)
    → 1 ≤ most
    → lookup peer
        (run (record { by_peer = []; ttl_ms = ttl; max_nonces_per_peer = most }) cs).by_peer
      ≡ some b
    → (1 ≤ length b) × (length b ≤ most)
run_capped ttl most cs peer b pos e =
    let s : PopChallengeStore = record { by_peer = []; ttl_ms = ttl; max_nonces_per_peer = most } in
    let here =
      bucket_of-IsBucket (run s cs) peer b (run-IsValid s cs (record { peers = tt; buckets = tt }))
        e in
    ground (arith, here, run_cap s cs)
