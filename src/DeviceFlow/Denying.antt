-- ===== src/DeviceFlow/Denying.antt =====
-- device-flow-enrollment.ts: a denial while an approval is in flight.
use openclaw_webchannel.Common.{
  ℕ, ◌≡◌, refl, sym, subst, ap, ◌∙◌, Bool, true, false, not, ◌&&◌, ◌||◌, Option, none, some, [],
  ◌∷◌, Text, text_Eq, text_eq_iff, ltb, ◌==◌, if◌then◌else◌, if_lem, arith, lookup, insert,
  lookup-insert, agree_refl, inl, inr, Bool-cases, IsDistinct, insert-IsDistinct, Option-cases, any,
}
use openclaw_webchannel.Enrollment.{
  EnrollmentRecord, EnrollmentRepository, Enrollments, NatsUserCredentials, returned,
  CommitApprovalPayload, claim_lost, claim_approval, claim_row, claimed, try_deny,
  find_by_user_code, commit_approval, find_row, names_op, is_reused, claims, is_text, is_pending,
  is_approving, put, ended, denied, expired,
}
use openclaw_webchannel.Enrollment.Rows.{find_row-lookup}
use openclaw_webchannel.DeviceFlow.{Options}
use openclaw_webchannel.DeviceFlow.Approval.{
  rejected, commit_minted, first_commit, commit_outcome, deny,
}
use openclaw_webchannel.DeviceFlow.Approving.{payload}

-- Each row stands under its own device code.
abbrev pub IsKeyed : Enrollments → Type 0
IsKeyed rows =
    (code : Text) (r : EnrollmentRecord) → lookup code rows ≡ some r → r.device_code ≡ code

find_row-names :
    (p : EnrollmentRecord → Bool) (rows : Enrollments) (code : Text) (r : EnrollmentRecord)
    → find_row p rows ≡ some (code, r)
    → p r ≡ true
unfolding find_row
find_row-names p [] code r e = ground (arith, e)
find_row-names p ((k, s) ∷ rows) code r e = ground (arith, e, find_row-names p rows code r)

any-lookup :
    (p : Text × EnrollmentRecord → Bool) (rows : Enrollments) (code : Text) (r : EnrollmentRecord)
    → any p rows ≡ false
    → lookup code rows ≡ some r
    → p (code, r) ≡ false
unfolding lookup
any-lookup p [] code r e found = ground (arith, found)
any-lookup p ((k, s) ∷ rows) code r e found =
    ground (arith, e, found, any-lookup p rows code r, text_eq_iff k code)

-- Once the only row of an operation is denied, no row names the operation.
denied_row :
    (rows : Enrollments) (code op : Text) (r leased : EnrollmentRecord)
    → IsDistinct rows
    → IsKeyed rows
    → r.device_code ≡ code
    → is_reused r.device_code op rows ≡ false
    → find_row (names_op op) (insert code (ended denied leased) (insert code leased rows)) ≡ none
denied_row rows code op r leased d keyed here unused =
    let final = insert code (ended denied leased) (insert code leased rows) in
    elim (Option-cases (find_row (names_op op) final)) [
      | inl e ↦ e
      | inr ((k, x), e) ↦ absurd (no_name k x e)
    ]
  where
    middle : Enrollments
    middle = insert code leased rows

    no_name :
        (k : Text) (x : EnrollmentRecord)
        → find_row (names_op op) (insert code (ended denied leased) middle) ≡ some (k, x)
        → ⊥
    no_name k x e =
        let named = find_row-names (names_op op) (insert code (ended denied leased) middle) k x e in
        let found =
          find_row-lookup (names_op op) (insert code (ended denied leased) middle) k x
            (insert-IsDistinct code (ended denied leased) middle
              (insert-IsDistinct code leased rows d))
            e in
        elim (Bool-cases (code == k)) [
          | inl same ↦
              ground (arith, named, found, lookup-insert code k (ended denied leased) middle, same)
          | inr other ↦
              let old : lookup k rows ≡ some x = ground (
                arith,
                found,
                other,
                lookup-insert code k (ended denied leased) middle,
                lookup-insert code k leased rows,
              ) in
              ground (
                arith,
                named,
                any-lookup
                    (λ y.
                      not (y.1.device_code == r.device_code)
                      && (claims y.1 op || is_text y.1.committed_by op))
                    rows k x unused old,
                keyed k x old,
                here,
                other,
                text_eq_iff x.device_code r.device_code,
                text_eq_iff code k,
              )
        ]

-- What a claim that was granted found, and left.
claim_found :
    (repo : EnrollmentRepository) (now lease_ms : ℕ) (user_code op : Text) (e : EnrollmentRecord)
    → (claim_approval repo now user_code op lease_ms).1 ≡ returned (claimed e)
    → (code : Text) × (r : EnrollmentRecord) × (leased : EnrollmentRecord) × (find_by_user_code repo
          user_code
        ≡ some (code, r))
      × (is_reused r.device_code op repo.enrollments ≡ false)
      × ((claim_approval repo now user_code op lease_ms).0 ≡ put repo code leased)
unfolding claim_approval
claim_found repo now lease_ms user_code op e h =
    elim (Option-cases (find_by_user_code repo user_code)) [
      | inl none_there ↦ ground (arith, none_there, h)
      | inr ((code, r), there) ↦ elim (Bool-cases (is_reused r.device_code op repo.enrollments)) [
        | inl used ↦ ground (arith, there, used, h)
        | inr unused ↦ (
          code,
          r,
          (claim_row r now op lease_ms).0,
          there,
          unused,
          rw (there, unused, claim_approval) refl,
        )
      ]
    ]

user_code_row :
    (repo : EnrollmentRepository) (user_code code : Text) (r : EnrollmentRecord)
    → find_by_user_code repo user_code ≡ some (code, r)
    → (lookup code repo.enrollments ≡ some r)
      × ((leased : EnrollmentRecord)
          → find_by_user_code (put repo code leased) user_code ≡ some (code, leased))
unfolding find_by_user_code
user_code_row repo user_code code r h = elim (Option-cases (lookup user_code repo.user_codes)) [
  | inl none_there ↦ ground (arith, none_there, h)
  | inr (found, there) ↦ (
    ground (arith, there, h),
    λ leased.
        ground (arith, there, h, lookup-insert code code leased repo.enrollments, agree_refl code),
  )
]

-- On the row it found, a denial that is made leaves it denied.
deny_row : EnrollmentRepository → ℕ → Text → EnrollmentRecord → EnrollmentRepository × Bool
deny_row repo t code r =
    if not (is_pending r.status || is_approving r.status)
    then (repo, false)
    else if ltb r.expires_at t
    then (put repo code (ended expired r), false)
    else (put repo code (ended denied r), true)

deny_row-denies :
    (repo : EnrollmentRepository) (t : ℕ) (code : Text) (r : EnrollmentRecord)
    → (deny_row repo t code r).1 ≡ true
    → (deny_row repo t code r).0 ≡ put repo code (ended denied r)
unfolding deny_row
deny_row-denies repo t code r =
    if_lem Denies (not (is_pending r.status || is_approving r.status)) _ _
      (λ e h. ground (arith, h))
      λ e. if_lem Denies (ltb r.expires_at t) _ _ (λ late h. ground (arith, h)) (λ early h. refl)
  where
    Denies : EnrollmentRepository × Bool → Type 0
    Denies p = p.1 ≡ true → p.0 ≡ put repo code (ended denied r)

deny_found :
    (repo : EnrollmentRepository) (t : ℕ) (user_code code : Text) (leased : EnrollmentRecord)
    → find_by_user_code repo user_code ≡ some (code, leased)
    → try_deny repo t user_code ≡ deny_row repo t code leased
unfolding try_deny deny_row
deny_found repo t user_code code leased h = rw (h, try_deny) refl

-- The repository after a claim and a denial of the enrollment claimed.
denied_after_claim :
    (repo : EnrollmentRepository) (now lease_ms t : ℕ) (user_code op : Text) (e : EnrollmentRecord)
    → IsDistinct repo.enrollments
    → IsKeyed repo.enrollments
    → (claim_approval repo now user_code op lease_ms).1 ≡ returned (claimed e)
    → (deny (claim_approval repo now user_code op lease_ms).0 t user_code).1 ≡ true
    → find_row
        (names_op op)
        (deny (claim_approval repo now user_code op lease_ms).0 t user_code).0.enrollments
      ≡ none
unfolding deny
denied_after_claim repo now lease_ms t user_code op e d keyed h did =
    let (code, r, leased, there, unused, left) = claim_found repo now lease_ms user_code op e h in
    let rows = user_code_row repo user_code code r there in
    let denial = deny_found (put repo code leased) t user_code code leased (rows.1 leased) in
    let did' : (try_deny (put repo code leased) t user_code).1 ≡ true =
      subst (λ x. (try_deny x t user_code).1 ≡ true) left did in
    let after : (try_deny (put repo code leased) t user_code).0
        ≡ put (put repo code leased) code (ended denied leased) =
      ap (λ p. p.0) denial
      ∙ deny_row-denies (put repo code leased) t code leased (sym (ap (λ p. p.1) denial) ∙ did') in
    subst (λ x. find_row (names_op op) (try_deny x t user_code).0.enrollments ≡ none) (sym left)
      (subst (λ x. find_row (names_op op) x.enrollments ≡ none) (sym after)
        (denied_row repo.enrollments code op r leased d keyed (keyed code r rows.0) unused))

commit_lost :
    (key_id : Text → Text) (hash : CommitApprovalPayload → Text) (repo : EnrollmentRepository)
    (now registered_at : ℕ) (activation op : Text) (commit : CommitApprovalPayload)
    → find_row (names_op op) repo.enrollments ≡ none
    → commit_approval key_id hash repo now registered_at activation op commit
      ≡ (repo, returned claim_lost)
unfolding commit_approval
commit_lost key_id hash repo now registered_at activation op commit e = rw (e, commit_approval) refl

-- A denial preempts an approval in flight: where an approval has claimed an enrollment, and the
-- operator denies it while the credentials are minted, the commit of the approval changes nothing,
-- at whatever time, and the approval answers that it was rejected.
pub deny_preempts :
    (key_id : Text → Text) (hash : CommitApprovalPayload → Text) (options : Options)
    (others : ℕ → EnrollmentRepository → EnrollmentRepository) (clock : ℕ → ℕ)
    (activation : ℕ → Text) (repo between : EnrollmentRepository) (now t : ℕ) (user_code op : Text)
    (e : EnrollmentRecord) (expect : Option Text) (creds : NatsUserCredentials) (peer_id : Text)
    → IsDistinct repo.enrollments
    → IsKeyed repo.enrollments
    → (claim_approval repo now user_code op options.approval_lease_ms).1 ≡ returned (claimed e)
    → (deny (claim_approval repo now user_code op options.approval_lease_ms).0 t user_code).1 ≡ true
    → others 3 between
      ≡ (deny (claim_approval repo now user_code op options.approval_lease_ms).0 t user_code).0
    → commit_minted key_id hash options others clock activation between op e expect
        (some (creds, peer_id))
      ≡ (
        (deny (claim_approval repo now user_code op options.approval_lease_ms).0 t user_code).0,
        rejected,
      )
unfolding commit_minted commit_outcome
deny_preempts key_id hash options others clock activation repo between now t user_code op e expect
      creds peer_id d keyed h did e' =
    let denied_repo =
      (deny (claim_approval repo now user_code op options.approval_lease_ms).0 t user_code).0 in
    let commit = payload key_id hash options others clock activation e expect creds peer_id in
    let none_left =
      denied_after_claim repo now options.approval_lease_ms t user_code op e d keyed h did in
    let lost =
      commit_lost key_id hash denied_repo (clock 2) (clock 3) (activation 0) op commit none_left in
    ap
      (λ x.
        first_commit key_id hash options others clock activation op commit
          (key_id e.agent_public_key)
          (commit_approval key_id hash x (clock 2) (clock 3) (activation 0) op commit))
      e'
    ∙ ap
        (first_commit key_id hash options others clock activation op commit
          (key_id e.agent_public_key))
        lost
