-- ===== src/DeviceFlow/Tests.antt =====
-- The service of device-flow-enrollment.ts, run on small inputs.
use openclaw_webchannel.Common.{
  decimal_fuel, ℕ, ◌+◌, ◌≡◌, refl, true, some, none, List, [], ◌∷◌, ◌++◌, Text, codes, text_eq,
  text_Eq, text_eq_iff, arith, nat_Eq, lookup, insert, is_token_char, length, All, take, drop,
}
use openclaw_webchannel.Tokens.{is_valid_subject_token}
use openclaw_webchannel.Registry.{
  register_sync, register_history, find_active, agent_key_registry_key,
}
use openclaw_webchannel.Enrollment.{
  sweep, EnrollmentRecord, EnrollmentRepository, CommitApprovalPayload, NatsUserCredentials,
  pending, create_enrollment, claim_approval, commit_approval, commit_claimed, find_row, names_op,
  find_by_user_code, claim_row, try_deny, returned, claimed, with_lease,
}
use openclaw_webchannel.DeviceFlow.{
  Options, EnrollmentRequest, EnrollmentResponse, enrolled, enroll, attempts, response,
  pending_enrollment, is_valid_request, is_agent_public_key, sanitize_plugin_version,
}
use openclaw_webchannel.DeviceFlow.Approval.{
  poll, expired_token, credentials, deny, commit_minted, approved, rejected, result,
}
use openclaw_webchannel.DeviceFlow.Enrolling.{poll-enroll}
use openclaw_webchannel.DeviceFlow.Approving.{poll-commit_minted}
use openclaw_webchannel.DeviceFlow.Denying.{IsKeyed, deny_preempts}
use openclaw_webchannel.DeviceFlow.Codes.{generate_user_code}
use openclaw_webchannel.DeviceFlow.Codes.Sampling.{in_alphabet, generate_user_code_total}

abbrev same : Text → Text
same t = t

abbrev hash : CommitApprovalPayload → Text
hash c = c.peer_id

abbrev options : Options
options = record {
  expiration_seconds = 600;
  poll_interval_seconds = 5;
  approval_lease_ms = 30_000;
  saas_base_url = codes "b";
  jwks_url = codes "j";
  bootstrap_url = codes "s";
  nats_url = codes "n";
  issuer = codes "b";
}

abbrev request : EnrollmentRequest
request = record {
  agent_public_key = codes "AAAAAAAAAAAAAAAAAAAAAAAAAAAAAAAAAAAAAAAAAAA";
  account_id = codes "a";
  tenant = codes "t";
  plugin_version = none;
  protocol_version = none;
}

abbrev start : EnrollmentRepository
start = record { enrollments = []; user_codes = []; histories = []; retention_ms = 300_000 }

abbrev quiet : ℕ → EnrollmentRepository → EnrollmentRepository
quiet n repo = repo

abbrev minted_codes : ℕ → Text × Text
minted_codes n = (n ∷ [], (100 + n) ∷ [])

-- The first code of this start is taken, so the second attempt is stored.
abbrev taken : EnrollmentRepository
taken = record start {
  enrollments = (0 ∷ [], pending_enrollment options request 0 (0 ∷ []) (50 ∷ [])) ∷ [];
}

abbrev second_answer : EnrollmentResponse
second_answer = record {
  device_code = 1 ∷ [];
  user_code = 101 ∷ [];
  verification_uri = codes "b/enroll";
  verification_uri_complete = codes "b/enroll?user_code=" ++ 101 ∷ [];
  expires_in = 600;
  interval = 5;
}

enroll_test : (enroll options request 7 minted_codes quiet taken).1 ≡ enrolled second_answer
unfolding enroll attempts response pending_enrollment is_valid_request is_agent_public_key
    is_valid_subject_token is_token_char sanitize_plugin_version create_enrollment find_by_user_code
    lookup insert text_eq
enroll_test = refl

poll-enroll_example :
    (poll options (enroll options request 7 minted_codes quiet taken).0 600_008 (1 ∷ [])).1
    ≡ expired_token
poll-enroll_example =
    poll-enroll options request 7 minted_codes quiet taken second_answer 600_008 enroll_test

abbrev device : EnrollmentRecord
device = record {
  device_code = codes "d";
  user_code = codes "u";
  agent_public_key = codes "K";
  account_id = codes "a";
  tenant = codes "t";
  created_at = 0;
  expires_at = 100;
  status = pending;
  claim = none;
  approved_at = none;
  committed_by = none;
  commit_digest = none;
  committed_record = none;
  nats_creds = none;
  peer_id = none;
  plugin_version = none;
  protocol_version = none;
}

abbrev enrolled_device : EnrollmentRepository
enrolled_device = record start {
  enrollments = (codes "d", device) ∷ [];
  user_codes = (codes "u", codes "d") ∷ [];
}

abbrev leased_device : EnrollmentRecord
leased_device = with_lease (codes "op") 30_010 device

abbrev claimed_device : EnrollmentRepository
claimed_device = record enrolled_device { enrollments = (codes "d", leased_device) ∷ [] }

abbrev creds : NatsUserCredentials
creds = record {
  user_jwt = codes "j";
  user_seed = codes "s";
  user_pubkey = codes "U";
  permissions = none;
}

abbrev activation : ℕ → Text
activation n = codes "act"

abbrev clock : ℕ → ℕ
clock n = 20

program : Unit {0}
unfolding register_sync register_history find_active agent_key_registry_key decimal_fuel text_eq
    lookup insert claim_approval commit_approval commit_claimed find_row find_by_user_code claim_row
    try_deny deny
program = tt

poll-commit_minted_example :
    let done =
      commit_minted same hash options quiet clock activation claimed_device
        (codes "op")
        device
        none
        (some (creds, codes "p")) in
    (done.1 ≡ approved (result options creds (codes "p")))
    × (code : Text) × (r : EnrollmentRecord) × (find_row
          (names_op (codes "op"))
          claimed_device.enrollments
        ≡ some (code, r))
    × ((poll options done.0 5000 code).1 ≡ credentials (result options creds (codes "p")))
    × ((poll options (sweep done.0 20).0 5000 code).1
        ≡ credentials (result options creds (codes "p")))
unfolding program
poll-commit_minted_example =
    poll-commit_minted same hash options quiet clock activation claimed_device (codes "op") device
      none creds 112 [] 20 5000 (refl, tt) refl (ground arith)

enrolled_device-IsKeyed : IsKeyed enrolled_device.enrollments
unfolding lookup
enrolled_device-IsKeyed code r found = ground (arith, found, text_eq_iff (codes "d") code)

claimed_test :
    (claim_approval enrolled_device 10 (codes "u") (codes "op") 30_000).1
    ≡ returned (claimed leased_device)
unfolding program
claimed_test = refl

denied_test :
    (deny (claim_approval enrolled_device 10 (codes "u") (codes "op") 30_000).0 15 (codes "u")).1
    ≡ true
unfolding program
denied_test = refl

abbrev denial : ℕ → EnrollmentRepository → EnrollmentRepository
denial n repo = (deny repo 15 (codes "u")).0

deny_preempts_example :
    commit_minted same hash options denial clock activation
      (claim_approval enrolled_device 10 (codes "u") (codes "op") 30_000).0
      (codes "op")
      leased_device
      none
      (some (creds, codes "p"))
    ≡ (
      (deny (claim_approval enrolled_device 10 (codes "u") (codes "op") 30_000).0 15 (codes "u")).0,
      rejected,
    )
unfolding lookup
deny_preempts_example =
    deny_preempts same hash options denial clock activation enrolled_device
      (claim_approval enrolled_device 10 (codes "u") (codes "op") 30_000).0 10 15 (codes "u")
      (codes "op") leased_device none creds (codes "p") (refl, tt) enrolled_device-IsKeyed
      claimed_test denied_test refl

abbrev random : ℕ → List ℕ
random n = 255 ∷ 7 ∷ 254 ∷ 3 ∷ 253 ∷ 252 ∷ 9 ∷ 1 ∷ 2 ∷ 3 ∷ 4 ∷ 5 ∷ 6 ∷ 7 ∷ 8 ∷ 251 ∷ []

generate_user_code_total_example :
    (code : Text) × (chosen : Text) × (generate_user_code random ≡ some code)
    × (code ≡ take 4 chosen ++ 45 ∷ drop 4 chosen)
    × (length chosen ≡ 8)
    × All (λ c. in_alphabet c ≡ true) chosen
generate_user_code_total_example = generate_user_code_total random (λ n. refl) (λ n. refl)
