-- ===== src/Enrollment/Commits.antt =====
-- What a commit that answers `committed` leaves, and what its retry gets.
use openclaw_webchannel.Common.{
  ℕ, ◌≡◌, refl, sym, ap, subst, ◌∙◌, Bool, true, false, not, ◌&&◌, Option, some, Text, text_Eq,
  ◌==◌, if◌then◌else◌, ltb, lookup, lookup-insert, agree_refl, IsDistinct, Bool-cases, Option-cases,
  inl, inr, ◌⊎◌, arith,
}
use openclaw_webchannel.Registry.{
  AgentKeyRecord, RegisterAgentKeyResult, registered, conflict, key_revoked, Histories,
  register_sync, get_active,
}
use openclaw_webchannel.Registry.Activation.{register_sync-active}
use openclaw_webchannel.Enrollment.{
  EnrollmentRecord, EnrollmentRepository, Result, returned, thrown, CommitApprovalOutcome,
  CommitApprovalPayload, committed, claim_lost, commit_expired, commit_conflict, commit_revoked,
  put, holds_lease, approve_row, recover, commit_claimed, commit_approval, find_row, names_op,
  is_approved, is_text,
}
use openclaw_webchannel.Enrollment.Rows.{find_row-insert}

abbrev Answer : Type 0
Answer = Result CommitApprovalOutcome

abbrev pub is_fresh : Answer → Bool
is_fresh (returned (committed key again)) = not again
is_fresh (returned claim_lost) = false
is_fresh (returned commit_expired) = false
is_fresh (returned commit_revoked) = false
is_fresh (returned (commit_conflict c)) = false
is_fresh (thrown f) = false

result_cases :
    (x : RegisterAgentKeyResult)
    → ((k : AgentKeyRecord) × (again : Bool) × (x ≡ registered k again))
      ⊎ ((current : Option AgentKeyRecord) × (x ≡ conflict current))
      ⊎ (x ≡ key_revoked)
result_cases (registered k again) = inl (k, again, refl)
result_cases (conflict current) = inr (inl (current, refl))
result_cases key_revoked = inr (inr refl)

module _ (key_id : Text → Text) (hash : CommitApprovalPayload → Text) where
  -- What a commit made now leaves of the repository.
  abbrev approved_repository :
      EnrollmentRepository
      → ℕ
      → Text
      → EnrollmentRecord
      → Text
      → CommitApprovalPayload
      → Histories
      → AgentKeyRecord
      → EnrollmentRepository
  approved_repository repo now code r op commit hs key =
      record (put repo code (approve_row key_id hash r now op commit key)) { histories = hs }

  -- A fresh commit has a registration behind it, and its row holds a live lease of the operation.
  commit_claimed-fresh :
      (repo : EnrollmentRepository) (now registered_at : ℕ) (activation code : Text)
      (r : EnrollmentRecord) (op : Text) (commit : CommitApprovalPayload)
      → is_fresh (commit_claimed key_id hash repo now registered_at activation code r op commit).1
        ≡ true
      → let step =
          register_sync key_id repo.histories registered_at activation r.tenant r.account_id
            commit.agent_public_key commit.expect in
        (key : AgentKeyRecord) × (again : Bool) × (step.1 ≡ registered key again)
        × (commit_claimed key_id hash repo now registered_at activation code r op commit ≡ (
          approved_repository repo now code r op commit step.0 key,
          returned (committed key false),
        ))
        × (holds_lease r op now ≡ true)
        × (ltb r.expires_at now ≡ false)
  unfolding commit_claimed
  commit_claimed-fresh repo now registered_at activation code r op commit =
      let step =
        register_sync key_id repo.histories registered_at activation r.tenant r.account_id
          commit.agent_public_key commit.expect in
      elim (Bool-cases (holds_lease r op now)) [
        | inr a ↦ rw (a, commit_claimed) (λ h. absurd (ground (arith, h)))
        | inl a ↦ elim (Bool-cases (ltb r.expires_at now)) [
          | inl b ↦ rw (a, b, commit_claimed) (λ h. absurd (ground (arith, h)))
          | inr b ↦ elim (Bool-cases (commit.agent_public_key == r.agent_public_key)) [
            | inr c ↦ rw (a, b, c, commit_claimed) (λ h. absurd (ground (arith, h)))
            | inl c ↦
                rw (a, b, c, commit_claimed)
                  (elim (result_cases step.1) [
                    | inl (key, again, f) ↦ rw f (λ h. (key, again, refl, refl, refl, refl))
                    | inr (inl (current, f)) ↦ rw f (λ h. absurd (ground (arith, h)))
                    | inr (inr f) ↦ rw f (λ h. absurd (ground (arith, h)))
                  ])
          ]
        ]
      ]

  commit_approval-fresh :
      (repo : EnrollmentRepository) (now registered_at : ℕ) (activation op : Text)
      (commit : CommitApprovalPayload)
      → is_fresh (commit_approval key_id hash repo now registered_at activation op commit).1 ≡ true
      → (code : Text) × (r : EnrollmentRecord) × (find_row (names_op op) repo.enrollments
          ≡ some (code, r))
        × (commit_approval key_id hash repo now registered_at activation op commit
            ≡ commit_claimed key_id hash repo now registered_at activation code r op commit)
  unfolding commit_approval
  commit_approval-fresh repo now registered_at activation op commit =
      elim (Option-cases (find_row (names_op op) repo.enrollments)) [
        | inl e ↦ rw (e, commit_approval) (λ h. absurd (ground (arith, h)))
        | inr (row, e) ↦
            elim (Bool-cases (is_approved row.1.status && is_text row.1.committed_by op)) [
              | inl a ↦ rw (e, a, commit_approval) (λ h. absurd (not_fresh row.1 h))
              | inr a ↦ rw (e, a, commit_approval) (λ h. (row.0, row.1, refl, refl))
            ]
      ]
    where
      not_fresh : (r : EnrollmentRecord) → is_fresh (recover key_id hash r commit) ≡ true → ⊥
      not_fresh r h = ground arith

  retry_row :
      (repo : EnrollmentRepository) (now registered_at : ℕ) (activation op code : Text)
      (r : EnrollmentRecord) (at : ℕ) (commit : CommitApprovalPayload) (key : AgentKeyRecord)
      → find_row (names_op op) repo.enrollments
        ≡ some (code, approve_row key_id hash r at op commit key)
      → commit_approval key_id hash repo now registered_at activation op commit
        ≡ (repo, returned (committed key true))
  unfolding commit_approval
  retry_row repo now registered_at activation op code r at commit key f =
      rw (f, agree_refl op, agree_refl (hash commit), commit_approval) refl

  -- If a commit answers that it committed, without being a retry, then it returned a key; the first
  -- row that named the operation held its lease and was not past its deadline; that row is now
  -- approved, with the credentials, the digest and the key as its snapshot; the key is the active
  -- one of the row's slot; and the same commit again, at any time, changes nothing and answers with
  -- the same key.
  pub commit_atomic :
      (repo : EnrollmentRepository) (now registered_at : ℕ) (activation op : Text)
      (commit : CommitApprovalPayload)
      → IsDistinct repo.enrollments
      → is_fresh (commit_approval key_id hash repo now registered_at activation op commit).1 ≡ true
      → let done = commit_approval key_id hash repo now registered_at activation op commit in
        (code : Text) × (r : EnrollmentRecord) × (key : AgentKeyRecord) × (find_row
            (names_op op)
            repo.enrollments
          ≡ some (code, r))
        × (holds_lease r op now ≡ true)
        × (ltb r.expires_at now ≡ false)
        × (done.1 ≡ returned (committed key false))
        × (lookup code done.0.enrollments ≡ some (approve_row key_id hash r now op commit key))
        × (get_active done.0.histories r.tenant r.account_id ≡ some key)
        × ((later registered_later : ℕ) (next : Text)
            → commit_approval key_id hash done.0 later registered_later next op commit
              ≡ (done.0, returned (committed key true)))
  commit_atomic repo now registered_at activation op commit d h =
      let (code, r, found, e) =
        commit_approval-fresh repo now registered_at activation op commit h in
      let (key, again, reg, e', lease, in_time) =
        commit_claimed-fresh repo now registered_at activation code r op commit
          (subst (λ o. is_fresh o.1 ≡ true) e h) in
      let hs =
        (register_sync key_id repo.histories registered_at activation r.tenant r.account_id
          commit.agent_public_key commit.expect).0 in
      let after = approved_repository repo now code r op commit hs key in
      let row = approve_row key_id hash r now op commit key in
      let t = e ∙ e' in
      (
        code,
        r,
        key,
        found,
        lease,
        in_time,
        ap (λ o. o.1) t,
        subst (λ o. lookup code o.0.enrollments ≡ some row) (sym t)
            (lookup-insert code code row repo.enrollments
              ∙ ap (λ c. if c then some row else lookup code repo.enrollments) (agree_refl code)),
        subst (λ o. get_active o.0.histories r.tenant r.account_id ≡ some key) (sym t)
            (register_sync-active key_id repo.histories registered_at activation r.tenant
              r.account_id commit.agent_public_key commit.expect key again reg),
        λ later registered_later next.
            subst
              (λ o.
                commit_approval key_id hash o.0 later registered_later next op commit
                ≡ (o.0, returned (committed key true)))
              (sym t)
              (retry_row after later registered_later next op code r now commit key (
                find_row-insert (names_op op) repo.enrollments code r row d found (agree_refl op))),
      )
