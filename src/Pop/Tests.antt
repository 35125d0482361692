-- ===== src/Pop/Tests.antt =====
-- Runs of the challenge store, and the theorems at inputs that meet their hypotheses.
use openclaw_webchannel.Common.{
  ℕ, ◌≤◌, ◌≡◌, ◌↔◌, refl, true, Bool, Option, some, [], ◌∷◌, Text, codes, text_eq, text_Eq, ◌==◌,
  lookup, insert, erase, length, keep_value, arith,
}
use openclaw_webchannel.Pop.{
  Bucket, PopChallengeStore, default_store, is_live, sweep, sweep_peers, size, evict_oldest, issue,
  consumed, missing, consume, delete_nonce, register, unregister, PopPublicJwk, PopVerifyReason,
  verified, nonce_missing, judge, verify, pop_signed_message,
}
use openclaw_webchannel.Pop.Store.{expiry}
use openclaw_webchannel.Pop.Runs.{issues, step, run, run-IsValid, run_capped}
use openclaw_webchannel.Pop.Promises.{
  expiry-issue_other, consume-issue, consume_single_use, verify_sound, verify_burns,
}
use openclaw_webchannel.Pop.Message.{pop_signed_message_injective}

program : Unit {0}
unfolding text_eq lookup insert erase sweep sweep_peers size evict_oldest issue consume delete_nonce
    judge verify pop_signed_message step run
program = tt

abbrev ada : Text
ada = codes "ada"

abbrev bob : Text
bob = codes "bob"

abbrev jwk : PopPublicJwk
jwk = record { kty = codes "OKP"; crv = codes "Ed25519"; x = codes "k" }

abbrev import_key : PopPublicJwk → Option Text
import_key j = some j.x

abbrev decode : Text → Option Text
decode t = some t

-- A signature is the text that is signed.
abbrev check : Text → Text → Text → Bool
check text key sig = text == sig

abbrev one : PopChallengeStore
one = issue default_store 10 10 (codes "n") ada

abbrev signature : Text
signature = codes "webchannel-pop:register:ada:n"

run_test :
    ((verify import_key decode check one 20 register ada (codes "n") signature jwk).1 ≡ verified)
    × ((verify import_key decode check one 20 unregister ada (codes "n") signature jwk).1
        ≡ PopVerifyReason.signature_mismatch)
unfolding program
run_test = (refl, refl)

verify_sound_example :
    (t : ℕ) × (key : Text) × (sig : Text) × (expiry one ada (codes "n") ≡ some t)
    × (20 ≤ t)
    × (import_key jwk ≡ some key)
    × (decode signature ≡ some sig)
    × (check (pop_signed_message register ada (codes "n")) key sig ≡ true)
unfolding program
verify_sound_example =
    verify_sound import_key decode check one 20 register ada (codes "n") signature jwk refl

verify_burns_example :
    let s' = (verify import_key decode check one 20 register ada (codes "n") signature jwk).0 in
    (verify import_key decode check s' 21 unregister ada (codes "n") signature jwk).1
    ≡ nonce_missing
verify_burns_example =
    verify_burns import_key decode check one 20 21 register unregister ada (codes "n") signature
      signature jwk jwk

consume_single_use_example :
    let s' = (consume one 20 ada (codes "n")).0 in
    (((consume one 20 ada (codes "n")).1 ≡ consumed)
      ↔ ((t : ℕ) × (expiry one ada (codes "n") ≡ some t) × (20 ≤ t)))
    × (consume s' 30 ada (codes "n") ≡ (s', missing))
consume_single_use_example = consume_single_use one 20 30 ada (codes "n")

consume-issue_example :
    (expiry (issue one 30 31 (codes "m") ada) ada (codes "m") ≡ some 120_031)
    × ((consume (issue one 30 31 (codes "m") ada) 40 ada (codes "m")).1 ≡ consumed)
unfolding program
consume-issue_example = consume-issue one 30 31 40 (codes "m") ada (omega arith)

expiry-issue_other_example :
    expiry (issue one 30 31 (codes "m") bob) ada (codes "n")
    ≡ keep_value (is_live 30) (expiry one ada (codes "n"))
unfolding program
expiry-issue_other_example =
    expiry-issue_other one 30 31 (codes "m") bob ada (codes "n")
      (run-IsValid default_store (issues 10 10 (codes "n") ada ∷ [])
        (record { peers = tt; buckets = tt }))
      (λ e. ground (arith, e))

abbrev bucket : Bucket
bucket = (codes "m", 102) ∷ []

run_capped_example : (1 ≤ length bucket) × (length bucket ≤ 1)
unfolding program
run_capped_example =
    run_capped 100 1 (issues 1 1 (codes "n") ada ∷ issues 2 2 (codes "m") ada ∷ []) ada bucket
      (omega arith) refl

pop_signed_message_injective_example :
    (register ≡ register) × (codes "a:b" ≡ codes "a:b") × (codes "n" ≡ codes "n")
unfolding program
pop_signed_message_injective_example =
    pop_signed_message_injective register register (codes "a:b") (codes "a:b") (codes "n")
      (codes "n") (λ e. omega arith, tt) (λ e. omega arith, tt) refl
