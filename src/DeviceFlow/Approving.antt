-- ===== src/DeviceFlow/Approving.antt =====
-- device-flow-enrollment.ts: what an approval promises, whatever other calls come between its steps.
use openclaw_webchannel.Common.{
  Bool-cases, inl, inr, ◌≤◌, ◌+◌, List, [], erase, false, arith, ℕ, ◌≡◌, refl, sym, subst, ap, ◌∙◌,
  true, Option, some, ◌∷◌, Text, text_Eq, lookup, IsDistinct,
}
use openclaw_webchannel.Registry.{AgentKeyRecord}
use openclaw_webchannel.Enrollment.{
  EnrollmentRecord, EnrollmentRepository, NatsUserCredentials, CommitApprovalPayload,
  commit_approval, find_row, names_op, try_expire, expire_row, approve_row, Enrollments, is_swept,
  sweep, sweep_rows,
}
use openclaw_webchannel.Enrollment.Commits.{commit_atomic, is_fresh}
use openclaw_webchannel.DeviceFlow.Enrolling.{poll_found}
use openclaw_webchannel.DeviceFlow.{Options}
use openclaw_webchannel.DeviceFlow.Approval.{
  approved, commit_minted, first_commit, commit_outcome, result, poll, credentials,
}

kept_in_rows :
    (retention u : ℕ) (rows : Enrollments) (codes : List (Text × Text)) (code : Text)
    (r : EnrollmentRecord)
    → lookup code rows ≡ some r
    → is_swept retention u r ≡ false
    → lookup code (sweep_rows retention u rows codes).0 ≡ some r
unfolding lookup sweep_rows
kept_in_rows retention u [] codes code r found stays = cc
kept_in_rows retention u ((other, s) ∷ rest) codes code r found stays =
    elim (Bool-cases (is_swept retention u s)) [
      | inl e ↦ rw e (
          kept_in_rows retention u rest (erase s.user_code codes) code r
            (ground (arith, found, stays, e)) stays)
      | inr e ↦ rw e (ground (arith, found, kept_in_rows retention u rest codes code r))
    ]

-- A sweep keeps each row that it does not remove.
kept_row :
    (repo : EnrollmentRepository) (u : ℕ) (code : Text) (r : EnrollmentRecord)
    → lookup code repo.enrollments ≡ some r
    → is_swept repo.retention_ms u r ≡ false
    → lookup code (sweep repo u).0.enrollments ≡ some r
unfolding sweep
kept_row repo u code r found stays =
    kept_in_rows repo.retention_ms u repo.enrollments repo.user_codes code r found stays

module _ (key_id : Text → Text) (hash : CommitApprovalPayload → Text) (options : Options)
    (others : ℕ → EnrollmentRepository → EnrollmentRepository) (clock : ℕ → ℕ)
    (activation : ℕ → Text) where
  abbrev pub payload :
      EnrollmentRecord → Option Text → NatsUserCredentials → Text → CommitApprovalPayload
  payload e expect creds peer_id = record {
    creds = creds;
    peer_id = peer_id;
    agent_public_key = e.agent_public_key;
    expect = expect;
  }

  unswept :
      (retention u now : ℕ) (r : EnrollmentRecord) (op : Text) (commit : CommitApprovalPayload)
      (key : AgentKeyRecord)
      → u ≤ now + retention
      → is_swept retention u (approve_row key_id hash r now op commit key) ≡ false
  unswept retention u now r op commit key h = ground (arith, h)

  -- An approved row answers every poll with its credentials.
  approved_poll :
      (repo : EnrollmentRepository) (code : Text) (r : EnrollmentRecord) (now t : ℕ) (op : Text)
      (commit : CommitApprovalPayload) (key : AgentKeyRecord) (c : ℕ) (cs : Text)
      → commit.peer_id ≡ c ∷ cs
      → lookup code repo.enrollments ≡ some (approve_row key_id hash r now op commit key)
      → (poll options repo t code).1 ≡ credentials (result options commit.creds commit.peer_id)
  unfolding poll try_expire expire_row
  approved_poll repo code r now t op commit key c cs named found =
      poll_found options repo code (approve_row key_id hash r now op commit key) t found
      ∙ rw named refl

  -- What the operator's approval answers is what the plugin polls. Where the commit of the minted
  -- credentials is made, and is no retry, the approval answers with them; on the repository that it
  -- leaves, and on that one swept no later than the retention after the commit, a poll at any time
  -- with the device code of the enrollment that the operation had claimed answers the same.
  pub poll-commit_minted :
      (repo : EnrollmentRepository) (op : Text) (e : EnrollmentRecord) (expect : Option Text)
      (creds : NatsUserCredentials) (c : ℕ) (cs : Text) (u t : ℕ)
      → IsDistinct (others 3 repo).enrollments
      → is_fresh
          (commit_approval key_id hash
            (others 3 repo)
            (clock 2)
            (clock 3)
            (activation 0)
            op
            (payload e expect creds (c ∷ cs))).1
        ≡ true
      → u
        ≤ clock 2
          + (commit_minted key_id hash options others clock activation repo op e expect
              (some (creds, c ∷ cs))).0.retention_ms
      → let done =
          commit_minted key_id hash options others clock activation repo op e expect
            (some (creds, c ∷ cs)) in
        (done.1 ≡ approved (result options creds (c ∷ cs)))
        × (code : Text) × (r : EnrollmentRecord) × (find_row
              (names_op op)
              (others 3 repo).enrollments
            ≡ some (code, r))
        × ((poll options done.0 t code).1 ≡ credentials (result options creds (c ∷ cs)))
        × ((poll options (sweep done.0 u).0 t code).1 ≡ credentials (result options creds (c ∷ cs)))
  unfolding commit_minted commit_outcome
  poll-commit_minted repo op e expect creds c cs u t d h kept =
      let commit = payload e expect creds (c ∷ cs) in
      let (code, r, key, found, lease, in_time, answer, stored, active, again) =
        commit_atomic key_id hash (others 3 repo) (clock 2) (clock 3) (activation 0) op commit d
          h in
      let x =
        commit_approval key_id hash (others 3 repo) (clock 2) (clock 3) (activation 0) op commit in
      let e' : commit_minted key_id hash options others clock activation repo op e expect
            (some (creds, c ∷ cs))
          ≡ (x.0, approved (result options creds (c ∷ cs))) =
        ap
          (λ a.
            first_commit key_id hash options others clock activation op commit
              (key_id e.agent_public_key) (x.0, a))
          answer in
      (
        ap (λ p. p.1) e',
        code,
        r,
        found,
        subst (λ p. (poll options p.0 t code).1 ≡ credentials (result options creds (c ∷ cs)))
            (sym e') (approved_poll x.0 code r (clock 2) t op commit key c cs refl stored),
        subst
            (λ p.
              (poll options (sweep p.0 u).0 t code).1 ≡ credentials (result options creds (c ∷ cs)))
            (sym e')
            (approved_poll (sweep x.0 u).0 code r (clock 2) t op commit key c cs refl (
              kept_row x.0 u code (approve_row key_id hash r (clock 2) op commit key) stored (
                unswept x.0.retention_ms u (clock 2) r op commit key
                  (subst (λ p. u ≤ clock 2 + p.0.retention_ms) e' kept)))),
      )
