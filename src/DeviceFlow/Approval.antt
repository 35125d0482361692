-- ===== src/DeviceFlow/Approval.antt =====
-- device-flow-enrollment.ts: `poll`, `deny` and `approve`.
use openclaw_webchannel.Common.{
  ℕ, Bool, true, false, Option, none, some, [], ◌∷◌, Text, text_Eq, nat_Eq, ◌==◌, if◌then◌else◌,
  maybe, take,
}
use openclaw_webchannel.Registry.{
  AgentKeyRecord, was_revoked, history_of, get_active, agent_key_registry_key,
}
use openclaw_webchannel.Enrollment.{
  EnrollmentStatus, EnrollmentRecord, EnrollmentRepository, NatsUserCredentials, Failure, Result,
  returned, thrown, ClaimApprovalOutcome, claimed, already_approved, in_progress, claim_denied,
  claim_expired, claim_not_found, CommitApprovalPayload, CommitApprovalOutcome, committed,
  claim_lost, commit_expired, commit_conflict, commit_revoked, claim_approval, commit_approval,
  reconcile_approved_registration, release_claim, try_deny, try_expire, ReconcileOutcome,
}
use openclaw_webchannel.DeviceFlow.{Options, EnrollmentResult}

pub data PollAnswer : Type 0 where
  invalid_device_code access_denied expired_token authorization_pending invalid_state : PollAnswer
  credentials : EnrollmentResult → PollAnswer

abbrev pub result : Options → NatsUserCredentials → Text → EnrollmentResult
result options creds peer_id = record {
  creds = creds;
  peer_id = peer_id;
  jwks_url = options.jwks_url;
  bootstrap_url = options.bootstrap_url;
  nats_url = options.nats_url;
  issuer = options.issuer;
}

-- `natsCreds && peerId`: an empty peer id counts as none.
abbrev pub delivered : Options → Option NatsUserCredentials → Option Text → Option EnrollmentResult
delivered options none peer = none
delivered options (some creds) none = none
delivered options (some creds) (some []) = none
delivered options (some creds) (some (c ∷ cs)) = some (result options creds (c ∷ cs))

abbrev pub poll_status : Options → EnrollmentRecord → PollAnswer
poll_status options r = elim r.status [
  | EnrollmentStatus.denied ↦ access_denied
  | EnrollmentStatus.expired ↦ expired_token
  | EnrollmentStatus.pending ↦ authorization_pending
  | EnrollmentStatus.approving ↦ authorization_pending
  | EnrollmentStatus.approved ↦
      maybe invalid_state credentials (delivered options r.nats_creds r.peer_id)
]

unfoldable pub poll : Options → EnrollmentRepository → ℕ → Text → EnrollmentRepository × PollAnswer
poll options repo now device_code =
    let tried = try_expire repo now device_code in
    (tried.0, maybe invalid_device_code (poll_status options) tried.2)

unfoldable pub deny : EnrollmentRepository → ℕ → Text → EnrollmentRepository × Bool
deny repo now user_code = try_deny repo now user_code

-- Of the active key: its activation, the start of its key id, and when it was enrolled.
pub record Existing : Type 0 where
  pub activation_id : Text
  pub key_id_fingerprint : Text
  pub enrolled_at : ℕ

pub data ApproveOutcome : Type 0 where
  approved : EnrollmentResult → ApproveOutcome
  busy : ApproveOutcome
  conflicting : Option Existing → Text → ApproveOutcome
  revoked_key : ApproveOutcome
  rejected : ApproveOutcome
  mint_failed : ApproveOutcome
  store_threw : Failure → ApproveOutcome

abbrev pub existing_of : AgentKeyRecord → Existing
existing_of active = record {
  activation_id = active.activation_id;
  key_id_fingerprint = take 12 active.key_id;
  enrolled_at = active.enrolled_at;
}

unfoldable pub conflict : Option AgentKeyRecord → Text → ApproveOutcome
conflict active incoming =
    conflicting (maybe none (λ a. some (existing_of a)) active) (take 12 incoming)

-- Which activation the commit expects to find; `none` is the conflict.
abbrev pub expected : Option AgentKeyRecord → Option Text → Text → Option (Option Text)
expected none none key = some none
expected none (some replaced) key = none
expected (some a) replaced key =
    if a.public_key == key
    then some (some a.activation_id)
    else maybe none (λ x. if x == a.activation_id then some (some a.activation_id) else none)
        replaced

-- The failures that are a `CommitPayloadMismatchError`.
abbrev pub is_mismatch : Failure → Bool
is_mismatch Failure.payload_mismatch = true
is_mismatch Failure.other_agent_key = true
is_mismatch Failure.op_id_reused = true
is_mismatch _ = false

module _ (key_id : Text → Text) (hash : CommitApprovalPayload → Text) (options : Options)
    (others : ℕ → EnrollmentRepository → EnrollmentRepository) (clock : ℕ → ℕ)
    (activation : ℕ → Text) where
  -- The answer to a commit.
  unfoldable pub commit_outcome :
      CommitApprovalPayload → Text → CommitApprovalOutcome → ApproveOutcome
  unfolding conflict
  commit_outcome commit incoming (committed key again) =
      approved (result options commit.creds commit.peer_id)
  commit_outcome commit incoming claim_lost = rejected
  commit_outcome commit incoming commit_expired = rejected
  commit_outcome commit incoming commit_revoked = revoked_key
  commit_outcome commit incoming (commit_conflict current) = conflict current incoming

  abbrev pub second_commit :
      CommitApprovalPayload
      → Text
      → EnrollmentRepository × Result CommitApprovalOutcome
      → EnrollmentRepository × ApproveOutcome
  second_commit commit incoming (repo, returned c) = (repo, commit_outcome commit incoming c)
  second_commit commit incoming (repo, thrown failure) = (repo, store_threw failure)

  -- A commit that throws is tried once more, except after a `CommitPayloadMismatchError`.
  abbrev pub first_commit :
      Text
      → CommitApprovalPayload
      → Text
      → EnrollmentRepository × Result CommitApprovalOutcome
      → EnrollmentRepository × ApproveOutcome
  first_commit op commit incoming (repo, returned c) = (repo, commit_outcome commit incoming c)
  first_commit op commit incoming (repo, thrown failure) =
      let again =
        commit_approval key_id hash (others 4 repo) (clock 4) (clock 5) (activation 1) op commit in
      if is_mismatch failure
      then (repo, store_threw failure)
      else second_commit commit incoming again

  -- From the mint on: `minted` is what the mint gave, and nothing where it threw.
  unfoldable pub commit_minted :
      EnrollmentRepository
      → Text
      → EnrollmentRecord
      → Option Text
      → Option (NatsUserCredentials × Text)
      → EnrollmentRepository × ApproveOutcome
  unfolding commit_outcome
  commit_minted repo op e expect none = ((release_claim (others 3 repo) op).0, mint_failed)
  commit_minted repo op e expect (some (creds, peer_id)) =
      let commit : CommitApprovalPayload = record {
        creds = creds;
        peer_id = peer_id;
        agent_public_key = e.agent_public_key;
        expect = expect;
      } in
      first_commit op commit (key_id e.agent_public_key)
        (commit_approval key_id hash (others 3 repo) (clock 2) (clock 3) (activation 0) op commit)

  -- The approval of an enrollment that this call has claimed.
  unfoldable pub approve_claimed :
      EnrollmentRepository
      → Text
      → EnrollmentRecord
      → Option Text
      → Option (NatsUserCredentials × Text)
      → EnrollmentRepository × ApproveOutcome
  unfolding commit_minted conflict
  approve_claimed repo op e replaced minted =
      let read = others 1 repo in
      let history = history_of read.histories (agent_key_registry_key e.tenant e.account_id) in
      if was_revoked key_id e.agent_public_key history
      then ((release_claim (others 2 read) op).0, revoked_key)
      else let read' = others 2 read in
        let active = get_active read'.histories e.tenant e.account_id in
        maybe ((release_claim (others 3 read') op).0, conflict active (key_id e.agent_public_key))
          (λ expect. commit_minted read' op e expect minted)
          (expected active replaced e.agent_public_key)

  abbrev pub reconciled_outcome : EnrollmentRecord → Result ReconcileOutcome → ApproveOutcome
  reconciled_outcome e (returned outcome) =
      maybe rejected approved (delivered options e.nats_creds e.peer_id)
  reconciled_outcome e (thrown failure) = store_threw failure

  unfoldable pub claim_outcome :
      EnrollmentRepository
      → Text
      → Option Text
      → Option (NatsUserCredentials × Text)
      → Result ClaimApprovalOutcome
      → EnrollmentRepository × ApproveOutcome
  unfolding approve_claimed
  claim_outcome repo op replaced minted (thrown failure) = (repo, store_threw failure)
  claim_outcome repo op replaced minted (returned (in_progress until)) = (repo, busy)
  claim_outcome repo op replaced minted (returned claim_denied) = (repo, rejected)
  claim_outcome repo op replaced minted (returned claim_expired) = (repo, rejected)
  claim_outcome repo op replaced minted (returned claim_not_found) = (repo, rejected)
  claim_outcome repo op replaced minted (returned (claimed e)) =
      approve_claimed repo op e replaced minted
  claim_outcome repo op replaced minted (returned (already_approved e)) =
      let again =
        reconcile_approved_registration key_id hash (others 1 repo) (clock 1) (activation 0)
          e.device_code in
      (again.0, reconciled_outcome e again.1)

  -- `approveInner`, with the random operation id.
  pub approve :
      EnrollmentRepository
      → Text
      → Text
      → Option Text
      → Option (NatsUserCredentials × Text)
      → EnrollmentRepository × ApproveOutcome
  unfolding claim_outcome
  approve repo user_code op replaced minted =
      let claim = claim_approval (others 0 repo) (clock 0) user_code op options.approval_lease_ms in
      claim_outcome claim.0 op replaced minted claim.1
