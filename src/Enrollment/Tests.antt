-- ===== src/Enrollment/Tests.antt =====
-- A run of the repository, and the theorem at it.
use openclaw_webchannel.Common.{
  decimal_fuel, ℕ, ◌≡◌, refl, true, false, some, none, [], Text, codes, text_eq, text_Eq, lookup,
  insert, ltb,
}
use openclaw_webchannel.Registry.{
  AgentKeyRecord, register_sync, register_history, get_active, find_active, agent_key_registry_key,
}
use openclaw_webchannel.Enrollment.{
  EnrollmentRecord, EnrollmentRepository, CommitApprovalPayload, pending, create_enrollment,
  claim_approval, commit_approval, commit_claimed, find_row, names_op, find_by_user_code, claim_row,
  returned, committed, claim_lost, approve_row, holds_lease, try_deny,
}
use openclaw_webchannel.Enrollment.Commits.{commit_atomic}

program : Unit {0}
unfolding register_sync register_history find_active agent_key_registry_key decimal_fuel text_eq
    lookup insert create_enrollment claim_approval commit_approval commit_claimed find_row
    find_by_user_code claim_row try_deny
program = tt

abbrev same : Text → Text
same t = t

abbrev hash : CommitApprovalPayload → Text
hash c = c.peer_id

abbrev device : EnrollmentRecord
device = record {
  device_code = codes "d";
  user_code = codes "u";
  agent_public_key = codes "K";
  account_id = codes "a";
  tenant = codes "t";
  created_at = 0;
  expires_at = 100;
  status = pending;
  claim = none;
  approved_at = none;
  committed_by = none;
  commit_digest = none;
  committed_record = none;
  nats_creds = none;
  peer_id = none;
  plugin_version = none;
  protocol_version = none;
}

abbrev start : EnrollmentRepository
start = record { enrollments = []; user_codes = []; histories = []; retention_ms = 300_000 }

abbrev claimed_at_ten : EnrollmentRepository
claimed_at_ten =
    (claim_approval (create_enrollment start device).0 10 (codes "u") (codes "op") 50).0

abbrev commit : CommitApprovalPayload
commit = record {
  creds = record {
    user_jwt = codes "j";
    user_seed = codes "s";
    user_pubkey = codes "U";
    permissions = none;
  };
  peer_id = codes "p";
  agent_public_key = codes "K";
  expect = none;
}

denied_test :
    (commit_approval same hash
      (try_deny claimed_at_ten 15 (codes "u")).0
      20
      20
      (codes "act")
      (codes "op")
      commit).1
    ≡ returned claim_lost
unfolding program
denied_test = refl

lease_test :
    (commit_approval same hash claimed_at_ten 61 61 (codes "act") (codes "op") commit).1
    ≡ returned claim_lost
unfolding program
lease_test = refl

commit_atomic_example :
    let done = commit_approval same hash claimed_at_ten 20 20 (codes "act") (codes "op") commit in
    (code : Text) × (r : EnrollmentRecord) × (key : AgentKeyRecord) × (find_row
        (names_op (codes "op"))
        claimed_at_ten.enrollments
      ≡ some (code, r))
    × (holds_lease r (codes "op") 20 ≡ true)
    × (ltb r.expires_at 20 ≡ false)
    × (done.1 ≡ returned (committed key false))
    × (lookup code done.0.enrollments ≡ some (approve_row same hash r 20 (codes "op") commit key))
    × (get_active done.0.histories r.tenant r.account_id ≡ some key)
    × ((later registered_later : ℕ) (next : Text)
        → commit_approval same hash done.0 later registered_later next (codes "op") commit
          ≡ (done.0, returned (committed key true)))
unfolding program
commit_atomic_example =
    commit_atomic same hash claimed_at_ten 20 20 (codes "act") (codes "op") commit (refl, tt) refl
