-- ===== src/DeviceFlow/Enrolling.antt =====
-- device-flow-enrollment.ts: what an enrollment leaves for the polls that follow.
use openclaw_webchannel.Common.{
  ℕ, suc, zero, ◌+◌, ◌*◌, ◌≡◌, refl, subst, ap, ◌∙◌, Bool, false, Option, none, some, Text, text_Eq,
  ltb, if◌then◌else◌, maybe, if_lem, arith, lookup, lookup-insert, agree_refl, inl, inr, Bool-cases,
}
use openclaw_webchannel.Enrollment.{
  EnrollmentRecord, EnrollmentRepository, put, Failure, Result, returned, thrown, create_enrollment,
  pending, try_expire, expire_row,
}
use openclaw_webchannel.DeviceFlow.{
  Options, EnrollmentRequest, EnrollmentResponse, EnrollAnswer, invalid_request, store_failed,
  enrolled, response, pending_enrollment, after_attempt, attempts, enroll, failure_of, is_collision,
  is_valid_request, max_enroll_attempts,
}
use openclaw_webchannel.DeviceFlow.Approval.{
  authorization_pending, expired_token, invalid_device_code, poll_status, poll,
}

module _ (options : Options) (request : EnrollmentRequest) (now : ℕ) (codes_at : ℕ → Text × Text)
    (others : ℕ → EnrollmentRepository → EnrollmentRepository) where
  -- An answer with a device code has a pending row under that code.
  abbrev Stored : EnrollmentRepository × EnrollAnswer → Type 0
  Stored (repo, invalid_request) = Unit
  Stored (repo, store_failed failure) = Unit
  Stored (repo, enrolled answer) =
      lookup answer.device_code repo.enrollments
      ≡ some (pending_enrollment options request now answer.device_code answer.user_code)

  stored_row :
      (repo : EnrollmentRepository) (e : EnrollmentRecord)
      → (create_enrollment repo e).1 ≡ returned tt
      → lookup e.device_code (create_enrollment repo e).0.enrollments ≡ some e
  unfolding create_enrollment
  stored_row repo e h = ground (
    arith,
    h,
    lookup-insert e.device_code e.device_code e repo.enrollments,
    agree_refl e.device_code,
  )

  after-Stored :
      (n : ℕ) (stored : EnrollmentRepository × Result (Unit {0}))
      (again : EnrollmentRepository × EnrollAnswer)
      → (stored.1 ≡ returned tt
          → lookup (codes_at n).0 stored.0.enrollments
            ≡ some (pending_enrollment options request now (codes_at n).0 (codes_at n).1))
      → Stored again
      → Stored (after_attempt options request now codes_at others n stored again)
  unfolding response
  after-Stored n (repo, returned done) again h rest = h refl
  after-Stored n (repo, thrown failure) again h rest =
      if_lem Stored (is_collision failure) _ _ (λ e. rest) (λ e. tt)

  attempts-Stored :
      (left n : ℕ) (last : Failure) (repo : EnrollmentRepository)
      → Stored (attempts options request now codes_at others left n last repo)
  unfolding attempts pending_enrollment
  attempts-Stored zero n last repo = tt
  attempts-Stored (suc left) n last repo =
      let stored =
        create_enrollment (others n repo)
          (pending_enrollment options request now (codes_at n).0 (codes_at n).1) in
      after-Stored n stored _
        (λ h.
          stored_row (others n repo)
            (pending_enrollment options request now (codes_at n).0 (codes_at n).1) h)
        (attempts-Stored left (suc n) (failure_of stored.1 last) stored.0)

  enroll-Stored :
      (repo : EnrollmentRepository) → Stored (enroll options request now codes_at others repo)
  unfolding enroll
  enroll-Stored repo =
      if_lem Stored (is_valid_request request) _ _
        (λ e. attempts-Stored max_enroll_attempts 0 Failure.user_code_collision repo) (λ e. tt)

-- A poll answers by the row that `tryExpire` leaves.
pub poll_found :
    (options : Options) (repo : EnrollmentRepository) (code : Text) (r : EnrollmentRecord) (t : ℕ)
    → lookup code repo.enrollments ≡ some r
    → (poll options repo t code).1 ≡ poll_status options (expire_row r t).0
unfolding poll try_expire
poll_found options repo code r t found =
    ap
      (λ o.
        maybe invalid_device_code (poll_status options)
          (maybe {B = EnrollmentRepository × Bool × Option EnrollmentRecord} (repo, false, none)
            (λ r'.
              (put repo code (expire_row r' t).0, (expire_row r' t).1, some (expire_row r' t).0))
            o).2)
      found

pending_poll :
    (options : Options) (repo : EnrollmentRepository) (r : EnrollmentRecord) (code : Text) (t : ℕ)
    → r.status ≡ pending
    → r.claim ≡ none
    → lookup code repo.enrollments ≡ some r
    → (poll options repo t code).1
      ≡ (if ltb r.expires_at t then expired_token else authorization_pending)
unfolding poll try_expire expire_row
pending_poll options repo r code t e free found =
    poll_found options repo code r t found ∙ elim (Bool-cases (ltb r.expires_at t)) [
      | inl late ↦ rw (e, late) refl
      | inr early ↦ rw (e, free, early, e) refl
    ]

-- An enrollment can be polled: where `enroll` answers with a device code, whatever other calls did
-- between its attempts, a poll with that code on the repository it leaves says that the
-- authorization is pending until the enrollment's time has passed, and that the token is expired
-- from then on.
pub poll-enroll :
    (options : Options) (request : EnrollmentRequest) (now : ℕ) (codes_at : ℕ → Text × Text)
    (others : ℕ → EnrollmentRepository → EnrollmentRepository) (repo : EnrollmentRepository)
    (answer : EnrollmentResponse) (t : ℕ)
    → (enroll options request now codes_at others repo).1 ≡ enrolled answer
    → (poll options (enroll options request now codes_at others repo).0 t answer.device_code).1 ≡ (
        if ltb (now + options.expiration_seconds * 1000) t
        then expired_token
        else authorization_pending)
unfolding pending_enrollment
poll-enroll options request now codes_at others repo answer t h =
    let done = enroll options request now codes_at others repo in
    let stored =
      subst (λ a. Stored options request now codes_at others (done.0, a)) h
        (enroll-Stored options request now codes_at others repo) in
    pending_poll options done.0
      (pending_enrollment options request now answer.device_code answer.user_code)
      answer.device_code t refl refl stored
