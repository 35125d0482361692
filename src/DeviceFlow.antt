-- ===== src/DeviceFlow.antt =====
-- packages/saas/src/device-flow-enrollment.ts: the enrollment service over the repository of
-- Enrollment. Random values are arguments (`codes_at`, `operation`, `mint`), as are the readings of
-- the repository's clock (`clock`), and `others` is whatever other calls do to the repository at the
-- points where the source awaits. Log lines are left out; in the logged branches only.
pub mod Approval
pub mod Enrolling
pub mod Approving
pub mod Denying
pub mod Codes
mod Tests
use openclaw_webchannel.Common.{
  ℕ, suc, zero, ◌+◌, ◌*◌, Bool, true, false, not, ◌&&◌, ◌||◌, Option, none, some, List, [], ◌∷◌,
  ◌++◌, Text, codes, text_Eq, nat_Eq, ltb, leb, ◌==◌, if◌then◌else◌, maybe, length, take,
  is_token_char,
}
use openclaw_webchannel.Tokens.{is_valid_subject_token}
use openclaw_webchannel.Registry.{
  AgentKeyRecord, was_revoked, history_of, get_active, agent_key_registry_key,
}
use openclaw_webchannel.Enrollment.{
  EnrollmentStatus, EnrollmentRecord, EnrollmentRepository, NatsUserCredentials, Failure, Result,
  returned, thrown, ClaimApprovalOutcome, claimed, already_approved, in_progress, claim_denied,
  claim_expired, claim_not_found, CommitApprovalPayload, CommitApprovalOutcome, committed,
  claim_lost, commit_expired, commit_conflict, commit_revoked, create_enrollment, claim_approval,
  commit_approval, reconcile_approved_registration, release_claim, try_deny, try_expire, pending,
  ReconcileOutcome,
}

abbrev pub max_enroll_attempts : ℕ
max_enroll_attempts = 5

abbrev pub plugin_version_max_len : ℕ
plugin_version_max_len = 64

abbrev pub all_chars : (ℕ → Bool) → Text → Bool
all_chars p [] = true
all_chars p (c ∷ cs) = p c && all_chars p cs

unfoldable pub is_agent_public_key : Text → Bool
is_agent_public_key key = length key == 43 && all_chars is_token_char key

-- The class `[\w.+-]`.
abbrev pub is_version_char : ℕ → Bool
is_version_char c = is_token_char c || c == 46 || c == 43

-- A version that is no string, or no non-negative safe integer, is absent.
unfoldable pub sanitize_plugin_version : Option Text → Option Text
sanitize_plugin_version none = none
sanitize_plugin_version (some v) =
    if ltb 0 (length v) && leb (length v) plugin_version_max_len && all_chars is_version_char v
    then some v
    else none

abbrev pub slash : ℕ
slash = 47

abbrev pub is_slashes : Text → Bool
is_slashes t = all_chars (λ c. c == slash) t

-- `replace(/\/+$/, "")`: the slashes that end the text are dropped.
pub default_issuer : Text → Text
default_issuer [] = []
default_issuer (c ∷ cs) = if is_slashes (c ∷ cs) then [] else c ∷ default_issuer cs

pub record Options : Type 0 where
  pub expiration_seconds : ℕ
  pub poll_interval_seconds : ℕ
  pub approval_lease_ms : ℕ
  pub saas_base_url : Text
  pub jwks_url : Text
  pub bootstrap_url : Text
  pub nats_url : Text
  pub issuer : Text

-- The constructor's defaults, where the caller gives no value.
pub options_of : Option ℕ → Option ℕ → Option ℕ → Option Text → Text → Text → Text → Text → Options
unfolding default_issuer
options_of expiration poll_interval lease issuer base jwks bootstrap nats = record {
  expiration_seconds = maybe 600 (λ n. n) expiration;
  poll_interval_seconds = maybe 5 (λ n. n) poll_interval;
  approval_lease_ms = maybe 30_000 (λ n. n) lease;
  saas_base_url = base;
  jwks_url = jwks;
  bootstrap_url = bootstrap;
  nats_url = nats;
  issuer = maybe (default_issuer base) (λ t. t) issuer;
}

pub record EnrollmentRequest : Type 0 where
  pub agent_public_key : Text
  pub account_id : Text
  pub tenant : Text
  pub plugin_version : Option Text
  pub protocol_version : Option ℕ

pub record EnrollmentResponse : Type 0 where
  pub device_code : Text
  pub user_code : Text
  pub verification_uri : Text
  pub verification_uri_complete : Text
  pub expires_in : ℕ
  pub interval : ℕ

pub record EnrollmentResult : Type 0 where
  pub creds : NatsUserCredentials
  pub peer_id : Text
  pub jwks_url : Text
  pub bootstrap_url : Text
  pub nats_url : Text
  pub issuer : Text

pub data EnrollAnswer : Type 0 where
  invalid_request : EnrollAnswer
  store_failed : Failure → EnrollAnswer
  enrolled : EnrollmentResponse → EnrollAnswer

unfoldable pub is_valid_request : EnrollmentRequest → Bool
unfolding is_agent_public_key
is_valid_request request =
    is_valid_subject_token request.tenant
    && is_valid_subject_token request.account_id
    && is_agent_public_key request.agent_public_key

-- The record of one attempt, with the codes that it minted.
unfoldable pub pending_enrollment : Options → EnrollmentRequest → ℕ → Text → Text → EnrollmentRecord
unfolding sanitize_plugin_version
pending_enrollment options request now device_code user_code = record {
  device_code = device_code;
  user_code = user_code;
  agent_public_key = request.agent_public_key;
  account_id = request.account_id;
  tenant = request.tenant;
  created_at = now;
  expires_at = now + options.expiration_seconds * 1000;
  status = pending;
  claim = none;
  approved_at = none;
  committed_by = none;
  commit_digest = none;
  committed_record = none;
  nats_creds = none;
  peer_id = none;
  plugin_version = sanitize_plugin_version request.plugin_version;
  protocol_version = request.protocol_version;
}

abbrev pub is_collision : Failure → Bool
is_collision Failure.device_code_collision = true
is_collision Failure.user_code_collision = true
is_collision _ = false

unfoldable pub response : Options → Text → Text → EnrollmentResponse
response options device_code user_code = record {
  device_code = device_code;
  user_code = user_code;
  verification_uri = options.saas_base_url ++ codes "/enroll";
  verification_uri_complete =
      (options.saas_base_url ++ codes "/enroll") ++ (codes "?user_code=" ++ user_code);
  expires_in = options.expiration_seconds;
  interval = options.poll_interval_seconds;
}

-- `lastCollision`.
abbrev pub failure_of : Result (Unit {0}) → Failure → Failure
failure_of (returned done) last = last
failure_of (thrown failure) last = failure

module _ (options : Options) (request : EnrollmentRequest) (now : ℕ) (codes_at : ℕ → Text × Text)
    (others : ℕ → EnrollmentRepository → EnrollmentRepository) where
  -- What follows the store's answer to attempt `n`: the answer, or one more attempt.
  abbrev pub after_attempt :
      ℕ
      → EnrollmentRepository × Result (Unit {0})
      → EnrollmentRepository × EnrollAnswer
      → EnrollmentRepository × EnrollAnswer
  after_attempt n (repo, returned done) again =
      (repo, enrolled (response options (codes_at n).0 (codes_at n).1))
  after_attempt n (repo, thrown failure) again =
      if is_collision failure then again else (repo, store_failed failure)

  -- The loop from attempt `n` on, `left` attempts before the last collision is thrown.
  unfoldable pub attempts :
      ℕ → ℕ → Failure → EnrollmentRepository → EnrollmentRepository × EnrollAnswer
  unfolding response pending_enrollment
  attempts zero n last repo = (repo, store_failed last)
  attempts (suc left) n last repo =
      let stored =
        create_enrollment (others n repo)
          (pending_enrollment options request now (codes_at n).0 (codes_at n).1) in
      after_attempt n stored (attempts left (suc n) (failure_of stored.1 last) stored.0)

  unfoldable pub enroll : EnrollmentRepository → EnrollmentRepository × EnrollAnswer
  unfolding attempts is_valid_request
  enroll repo =
      if is_valid_request request
      then attempts max_enroll_attempts 0 Failure.user_code_collision repo
      else (repo, invalid_request)
