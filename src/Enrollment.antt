-- ===== src/Enrollment.antt =====
-- packages/saas/src/enrollment-repository.ts: the in-memory repository of device-flow enrollments,
-- whose record is that of packages/saas/src/device-flow-types.ts. A row that the source mutates is
-- put back under its device code; `returned` and `thrown` are how a method ends. The clock is an
-- argument, the digest of a commit (`hash`) and the key's SHA-256 (`key_id`) are parameters.
pub mod Rows
pub mod Commits
mod Tests
use openclaw_webchannel.Common.{
  ℕ, ◌+◌, Bool, true, false, not, ◌&&◌, ◌||◌, Option, none, some, List, [], ◌∷◌, Text, text_Eq,
  nat_Eq, ltb, leb, ◌==◌, if◌then◌else◌, length, any, lookup, insert, erase,
}
use openclaw_webchannel.Registry.{
  AgentKeyRecord, RegisterAgentKeyResult, registered, conflict, key_revoked, Histories, History,
  register_sync, history_of, find_active, agent_key_registry_key,
}

pub data EnrollmentStatus : Type 0 where
  pending approving approved expired denied : EnrollmentStatus

pub record Claim : Type 0 where
  pub op_id : Text
  pub lease_until : ℕ

pub record Permissions : Type 0 where
  pub pub_subjects : Option (List Text)
  pub sub_subjects : Option (List Text)

pub record NatsUserCredentials : Type 0 where
  pub user_jwt : Text
  pub user_seed : Text
  pub user_pubkey : Text
  pub permissions : Option Permissions

pub record EnrollmentRecord : Type 0 where
  pub device_code : Text
  pub user_code : Text
  pub agent_public_key : Text
  pub account_id : Text
  pub tenant : Text
  pub created_at : ℕ
  pub expires_at : ℕ
  pub status : EnrollmentStatus
  pub claim : Option Claim
  pub approved_at : Option ℕ
  pub committed_by : Option Text
  pub commit_digest : Option Text
  pub committed_record : Option AgentKeyRecord
  pub nats_creds : Option NatsUserCredentials
  pub peer_id : Option Text
  pub plugin_version : Option Text
  pub protocol_version : Option ℕ

pub data Failure : Type 0 where
  device_code_collision user_code_collision op_id_reused payload_mismatch other_agent_key
        impossible_result :
      Failure

pub data Result {ℓ} (A : Type ℓ) : Type ℓ where
  returned : A → Result A
  thrown : Failure → Result A

pub data ClaimApprovalOutcome : Type 0 where
  claimed already_approved : EnrollmentRecord → ClaimApprovalOutcome
  in_progress : ℕ → ClaimApprovalOutcome
  claim_denied claim_expired claim_not_found : ClaimApprovalOutcome

pub record CommitApprovalPayload : Type 0 where
  pub creds : NatsUserCredentials
  pub peer_id : Text
  pub agent_public_key : Text
  pub expect : Option Text

pub data CommitApprovalOutcome : Type 0 where
  committed : AgentKeyRecord → Bool → CommitApprovalOutcome
  claim_lost commit_expired commit_revoked : CommitApprovalOutcome
  commit_conflict : Option AgentKeyRecord → CommitApprovalOutcome

pub data NoopReason : Type 0 where
  not_found not_approved active_present history_present commit_snapshot_present : NoopReason

pub data ReconcileOutcome : Type 0 where
  reconciled : AgentKeyRecord → ReconcileOutcome
  noop : NoopReason → ReconcileOutcome

abbrev pub Enrollments : Type 0
Enrollments = List (Text × EnrollmentRecord)

pub record EnrollmentRepository : Type 0 where
  pub enrollments : Enrollments
  pub user_codes : List (Text × Text)
  pub histories : Histories
  pub retention_ms : ℕ

abbrev pub is_truthy : Option Text → Bool
is_truthy none = false
is_truthy (some []) = false
is_truthy (some (c ∷ cs)) = true

abbrev pub has {ℓ} : {A : Type ℓ} → Option A → Bool
has none = false
has (some a) = true

abbrev pub is_text : Option Text → Text → Bool
is_text none t = false
is_text (some s) t = s == t

-- `record.claim?.opId === opId`.
abbrev pub claims : EnrollmentRecord → Text → Bool
claims r op = elim r.claim [ none ↦ false | some c ↦ c.op_id == op ]

abbrev pub put : EnrollmentRepository → Text → EnrollmentRecord → EnrollmentRepository
put repo code r = record repo { enrollments = insert code r repo.enrollments }

-- `const code = this.userCodes.get(userCode)` and the row under it: an empty code finds no row.
unfoldable pub find_by_user_code : EnrollmentRepository → Text → Option (Text × EnrollmentRecord)
find_by_user_code repo user_code = elim (lookup user_code repo.user_codes) [
  | none ↦ none
  | some code ↦
      if is_truthy (some code)
      then elim (lookup code repo.enrollments) [ none ↦ none | some r ↦ some (code, r) ]
      else none
]

unfoldable pub create_enrollment :
    EnrollmentRepository → EnrollmentRecord → EnrollmentRepository × Result (Unit {0})
create_enrollment repo e =
    if has (lookup e.device_code repo.enrollments)
    then (repo, thrown device_code_collision)
    else if has (find_by_user_code repo e.user_code)
    then (repo, thrown user_code_collision)
    else (
      record (put repo e.device_code e) {
        user_codes = insert e.user_code e.device_code repo.user_codes;
      },
      returned tt,
    )

-- Another enrollment already stands for the operation.
abbrev pub is_reused : Text → Text → Enrollments → Bool
is_reused device_code op rows =
    any
      (λ e. not (e.1.device_code == device_code) && (claims e.1 op || is_text e.1.committed_by op))
      rows

abbrev pub ended : EnrollmentStatus → EnrollmentRecord → EnrollmentRecord
ended status r = record r { status = status; claim = none }

abbrev pub with_lease : Text → ℕ → EnrollmentRecord → EnrollmentRecord
with_lease op until r = record r {
  status = approving;
  claim = some (record { op_id = op; lease_until = until });
}

-- The decision table of `claimApproval` on the row it found.
unfoldable pub claim_row : EnrollmentRecord → ℕ → Text → ℕ → EnrollmentRecord × ClaimApprovalOutcome
claim_row r now op lease_ms =
    let leased = with_lease op (now + lease_ms) r in
    let late = ltb r.expires_at now in
    elim r.status [
      | approved ↦ (r, already_approved r)
      | denied ↦ (r, claim_denied)
      | expired ↦ (r, claim_expired)
      | pending ↦
          if late then (record r { status = expired }, claim_expired) else (leased, claimed leased)
      | approving ↦ elim r.claim [
        | none ↦ if late then (ended expired r, claim_expired) else (leased, claimed leased)
        | some c ↦
            if leb now c.lease_until
            then (r, in_progress c.lease_until)
            else if late
            then (ended expired r, claim_expired)
            else (leased, claimed leased)
      ]
    ]

unfoldable pub claim_approval :
    EnrollmentRepository → ℕ → Text → Text → ℕ → EnrollmentRepository × Result ClaimApprovalOutcome
unfolding find_by_user_code claim_row
claim_approval repo now user_code op lease_ms = elim (find_by_user_code repo user_code) [
  | none ↦ (repo, returned claim_not_found)
  | some (code, r) ↦
      if is_reused r.device_code op repo.enrollments
      then (repo, thrown op_id_reused)
      else (put repo code (claim_row r now op lease_ms).0, returned (claim_row r now op lease_ms).1)
]

abbrev pub is_approved : EnrollmentStatus → Bool
is_approved s = elim s [ approved ↦ true | _ ↦ false ]

abbrev pub is_approving : EnrollmentStatus → Bool
is_approving s = elim s [ approving ↦ true | _ ↦ false ]

abbrev pub is_pending : EnrollmentStatus → Bool
is_pending s = elim s [ pending ↦ true | _ ↦ false ]

-- `Array.prototype.find` over the rows of the map.
unfoldable pub find_row : (EnrollmentRecord → Bool) → Enrollments → Option (Text × EnrollmentRecord)
find_row p [] = none
find_row p (e ∷ rest) = if p e.1 then some e else find_row p rest

abbrev pub names_op : Text → EnrollmentRecord → Bool
names_op op r = claims r op || (is_approved r.status && is_text r.committed_by op)

abbrev pub holds_lease : EnrollmentRecord → Text → ℕ → Bool
holds_lease r op now = elim r.claim [
  | none ↦ false
  | some c ↦ is_approving r.status && c.op_id == op && leb now c.lease_until
]

module _ (key_id : Text → Text) (hash : CommitApprovalPayload → Text) where
  -- A retry of a commit that is durable: the snapshot, if the digest is the stored one.
  abbrev pub recover : EnrollmentRecord → CommitApprovalPayload → Result CommitApprovalOutcome
  recover r commit = elim r.committed_record [
    | none ↦ thrown payload_mismatch
    | some snapshot ↦
        if is_text r.commit_digest (hash commit)
        then returned (committed snapshot true)
        else thrown payload_mismatch
  ]

  abbrev pub approve_row :
      EnrollmentRecord → ℕ → Text → CommitApprovalPayload → AgentKeyRecord → EnrollmentRecord
  approve_row r now op commit key = record r {
    status = approved;
    nats_creds = some commit.creds;
    peer_id = some commit.peer_id;
    approved_at = some now;
    committed_by = some op;
    commit_digest = some (hash commit);
    committed_record = some key;
    claim = none;
  }

  -- From the lease check on; `registered_at` is the clock reading of `registerSync`.
  unfoldable pub commit_claimed :
      EnrollmentRepository
      → ℕ
      → ℕ
      → Text
      → Text
      → EnrollmentRecord
      → Text
      → CommitApprovalPayload
      → EnrollmentRepository × Result CommitApprovalOutcome
  commit_claimed repo now registered_at activation code r op commit =
      if not (holds_lease r op now)
      then (repo, returned claim_lost)
      else if ltb r.expires_at now
      then (put repo code (ended expired r), returned commit_expired)
      else if not (commit.agent_public_key == r.agent_public_key)
      then (repo, thrown other_agent_key)
      else (let (histories, result) =
            register_sync key_id repo.histories registered_at activation r.tenant r.account_id
              commit.agent_public_key commit.expect in
          elim result [
            | registered key _ ↦ (
              record (put repo code (approve_row r now op commit key)) { histories = histories },
              returned (committed key false),
            )
            | conflict current ↦
                (put repo code (ended pending r), returned (commit_conflict current))
            | key_revoked ↦ (put repo code (ended pending r), returned commit_revoked)
          ])

  unfoldable pub commit_approval :
      EnrollmentRepository
      → ℕ
      → ℕ
      → Text
      → Text
      → CommitApprovalPayload
      → EnrollmentRepository × Result CommitApprovalOutcome
  unfolding find_row commit_claimed
  commit_approval repo now registered_at activation op commit =
      elim (find_row (names_op op) repo.enrollments) [
        | none ↦ (repo, returned claim_lost)
        | some (code, r) ↦
            if is_approved r.status && is_text r.committed_by op
            then (repo, recover r commit)
            else commit_claimed repo now registered_at activation code r op commit
      ]

  pub reconcile_approved_registration :
      EnrollmentRepository → ℕ → Text → Text → EnrollmentRepository × Result ReconcileOutcome
  reconcile_approved_registration repo now activation device_code =
      elim (lookup device_code repo.enrollments) [
        | none ↦ (repo, returned (noop not_found))
        | some r ↦
            let history =
              history_of repo.histories (agent_key_registry_key r.tenant r.account_id) in
            if not (is_approved r.status)
            then (repo, returned (noop not_approved))
            else if has (find_active history)
            then (repo, returned (noop active_present))
            else if not (length history == 0)
            then (repo, returned (noop history_present))
            else if is_truthy r.committed_by || has r.committed_record
            then (repo, returned (noop commit_snapshot_present))
            else (let (histories, result) =
                  register_sync key_id repo.histories now activation r.tenant r.account_id
                    r.agent_public_key none in
                (
                  record repo { histories = histories },
                  elim result [
                    | registered key _ ↦ returned (reconciled key)
                    | conflict current ↦ thrown impossible_result
                    | key_revoked ↦ thrown impossible_result
                  ],
                ))
      ]

unfoldable pub release_claim : EnrollmentRepository → Text → EnrollmentRepository × Bool
unfolding find_row
release_claim repo op =
    elim (find_row (λ r. is_approving r.status && claims r op) repo.enrollments) [
      | none ↦ (repo, false)
      | some (code, r) ↦ (put repo code (ended pending r), true)
    ]

unfoldable pub try_deny : EnrollmentRepository → ℕ → Text → EnrollmentRepository × Bool
unfolding find_by_user_code
try_deny repo now user_code = elim (find_by_user_code repo user_code) [
  | none ↦ (repo, false)
  | some (code, r) ↦
      if not (is_pending r.status || is_approving r.status)
      then (repo, false)
      else if ltb r.expires_at now
      then (put repo code (ended expired r), false)
      else (put repo code (ended denied r), true)
]

-- The row that `tryExpire` leaves, and whether it made the transition.
unfoldable pub expire_row : EnrollmentRecord → ℕ → EnrollmentRecord × Bool
expire_row r now =
    if is_pending r.status && ltb r.expires_at now
    then (record r { status = expired }, true)
    else elim r.claim [
      | none ↦ (r, false)
      | some c ↦
          if is_approving r.status && ltb c.lease_until now && ltb r.expires_at now
          then (ended expired r, true)
          else (r, false)
    ]

unfoldable pub try_expire :
    EnrollmentRepository → ℕ → Text → EnrollmentRepository × Bool × Option EnrollmentRecord
unfolding expire_row
try_expire repo now device_code = elim (lookup device_code repo.enrollments) [
  | none ↦ (repo, false, none)
  | some r ↦ let (r', moved) = expire_row r now in (put repo device_code r', moved, some r')
]

abbrev pub is_leased : EnrollmentRecord → ℕ → Bool
is_leased r now = elim r.claim [
  | none ↦ false
  | some c ↦ is_approving r.status && leb now c.lease_until
]

-- The instant that the retention of a row starts at.
abbrev pub retention_base : EnrollmentRecord → ℕ
retention_base r =
    if is_approved r.status
    then elim r.approved_at [ none ↦ r.expires_at | some t ↦ t ]
    else r.expires_at

abbrev pub is_swept : ℕ → ℕ → EnrollmentRecord → Bool
is_swept retention now r = not (is_leased r now) && ltb (retention_base r + retention) now

unfoldable pub sweep_rows :
    ℕ → ℕ → Enrollments → List (Text × Text) → Enrollments × List (Text × Text) × ℕ
sweep_rows retention now [] codes = ([], codes, 0)
sweep_rows retention now ((code, r) ∷ rest) codes =
    let gone = is_swept retention now r in
    let swept = sweep_rows retention now rest (if gone then erase r.user_code codes else codes) in
    if gone then (swept.0, swept.1, swept.2 + 1) else ((code, r) ∷ swept.0, swept.1, swept.2)

unfoldable pub sweep : EnrollmentRepository → ℕ → EnrollmentRepository × ℕ
unfolding sweep_rows
sweep repo now =
    let swept = sweep_rows repo.retention_ms now repo.enrollments repo.user_codes in
    (record repo { enrollments = swept.0; user_codes = swept.1 }, swept.2)
