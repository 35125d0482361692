-- ===== src/Ledger/Records.antt =====
-- The records of browser-credential-ledger.ts under an issuance, a mark and a sweep.
use openclaw_webchannel.Common.{
  arith, ◌↔◌, text_eq_iff, ℕ, ◌+◌, ◌≡◌, refl, sym, ap, subst, ◌∙◌, true, false, not, ◌&&◌, Option,
  none, some, [], ◌∷◌, Text, text_Eq, nat_Eq, ◌==◌, if◌then◌else◌, lookup, insert, IsDistinct,
  keep_values, keep_value, lookup-keep_values, keep_values-IsDistinct, Bool-cases, Option-cases,
  inl, inr, ◌⊎◌,
}
use openclaw_webchannel.Ledger.{
  BrowserCredentialStatus, credential, peer, account, in_scope, revoked, BrowserCredentialIssuance,
  BrowserCredentialRecord, BrowserCredentialScope, MarkRevokedResult, MemoryBrowserCredentialLedger,
  Records, Result, active, returned, thrown, input_error, collision_error, is_timestamp_sec,
  is_valid_issuance, is_valid_scope, record_issuance, get, revoke_in, stage, mark_revoked,
  is_removable, sweep_rows, sweep,
}

abbrev pub map_value :
    (BrowserCredentialRecord → BrowserCredentialRecord)
    → Option BrowserCredentialRecord
    → Option BrowserCredentialRecord
map_value f none = none
map_value f (some r) = some (f r)

lookup-stage :
    (scope : BrowserCredentialScope) (at : ℕ) (rows : Records) (key : Text)
    → lookup key (stage scope at rows).0 ≡ map_value (revoke_in scope at) (lookup key rows)
unfolding stage lookup
lookup-stage scope at [] key = refl
lookup-stage scope at ((k, r) ∷ rows) key =
    elim (k == key)
      as (λ c.
        (if c then some (revoke_in scope at r) else lookup key (stage scope at rows).0)
        ≡ map_value (revoke_in scope at) (if c then some r else lookup key rows)) [
          | true ↦ refl
          | false ↦ lookup-stage scope at rows key
        ]

stage-IsDistinct :
    (scope : BrowserCredentialScope) (at : ℕ) (rows : Records)
    → IsDistinct rows
    → IsDistinct (stage scope at rows).0
unfolding stage
stage-IsDistinct scope at [] d = tt
stage-IsDistinct scope at ((k, r) ∷ rows) d = (
  lookup-stage scope at rows k ∙ ap (map_value (revoke_in scope at)) d.0,
  stage-IsDistinct scope at rows d.1,
)

sweep_rows-keep :
    (now retention : ℕ) (rows : Records)
    → (sweep_rows now retention rows).0 ≡ keep_values (λ r. not (is_removable now retention r)) rows
unfolding sweep_rows
sweep_rows-keep now retention [] = refl
sweep_rows-keep now retention ((k, r) ∷ rows) =
    elim (is_removable now retention r)
      as (λ c.
        (if◌then◌else◌ {A = Records × ℕ} c
          ((sweep_rows now retention rows).0, (sweep_rows now retention rows).1 + 1)
          ((k, r) ∷ (sweep_rows now retention rows).0, (sweep_rows now retention rows).1)).0
        ≡ (if not c
            then (k, r) ∷ keep_values (λ r. not (is_removable now retention r)) rows
            else keep_values (λ r. not (is_removable now retention r)) rows)) [
              | true ↦ sweep_rows-keep now retention rows
              | false ↦ ap (λ t. (k, r) ∷ t) (sweep_rows-keep now retention rows)
            ]

abbrev pub IsValid : MemoryBrowserCredentialLedger → Type 0
IsValid ledger = IsDistinct ledger.records

pub get-mark_revoked_map :
    (ledger : MemoryBrowserCredentialLedger) (scope : BrowserCredentialScope) (at : ℕ) (key : Text)
    → is_valid_scope scope ≡ true
    → is_timestamp_sec at ≡ true
    → get (mark_revoked ledger scope at).0 key ≡ map_value (revoke_in scope at) (get ledger key)
unfolding mark_revoked
get-mark_revoked_map ledger scope at key hs ht =
    rw (hs, ht, mark_revoked) (lookup-stage scope at ledger.records key)

-- Who a mark is for: one credential, one peer of a NATS account, or all of an account.
abbrev pub Names : BrowserCredentialScope → BrowserCredentialIssuance → Type 0
Names (credential key) i = i.user_pubkey ≡ key
Names (peer nats id) i = (i.nats_account_public_key ≡ nats) × (i.peer_id ≡ id)
Names (account nats) i = i.nats_account_public_key ≡ nats

-- The record after a mark: an active one that the mark is for is revoked at the mark's time, and is
-- otherwise the same; any other is left as it is, so that one already revoked keeps its time.
abbrev pub Marked :
    BrowserCredentialScope → ℕ → BrowserCredentialRecord → BrowserCredentialRecord → Type 0
Marked scope at r r' =
    ((r.status ≡ active)
      × Names scope r.issuance
      × (r'.status ≡ revoked)
      × (r'.revoked_at_sec ≡ some at)
      × (r'.issuance ≡ r.issuance))
    ⊎ (((r.status ≡ revoked) ⊎ ¬ Names scope r.issuance) × (r' ≡ r))

in_scope-Names :
    (scope : BrowserCredentialScope) (r : BrowserCredentialRecord)
    → (in_scope scope r ≡ true) ↔ Names scope r.issuance
in_scope-Names (credential key) r = text_eq_iff r.issuance.user_pubkey key
in_scope-Names (peer nats id) r =
    ground (
      arith,
      text_eq_iff r.issuance.nats_account_public_key nats,
      text_eq_iff r.issuance.peer_id id,
    )
in_scope-Names (account nats) r = text_eq_iff r.issuance.nats_account_public_key nats

status-cases : (s : BrowserCredentialStatus) → (s ≡ active) ⊎ (s ≡ revoked)
status-cases active = inl refl
status-cases revoked = inr refl

revoke_in-Marked :
    (scope : BrowserCredentialScope) (at : ℕ) (r : BrowserCredentialRecord)
    → Marked scope at r (revoke_in scope at r)
revoke_in-Marked scope at r = elim (Bool-cases (in_scope scope r)) [
  | inl e ↦ elim (status-cases r.status) [
    | inl f ↦ inl (
      f,
      (in_scope-Names scope r).0 e,
      ground (arith, e, f),
      ground (arith, e, f),
      ground (arith, e, f),
    )
    | inr f ↦ inr (inl f, ground (arith, e, f))
  ]
  | inr e ↦ inr (
    inr (λ named. absurd (ground (arith, e, (in_scope-Names scope r).1 named))),
    ground (arith, e),
  )
]

-- A mark with a valid scope and time revokes the active records that it is for, at that time, and
-- changes no other: a record already revoked keeps its time, and no record is added or lost.
pub get-mark_revoked :
    (ledger : MemoryBrowserCredentialLedger) (scope : BrowserCredentialScope) (at : ℕ) (key : Text)
    → is_valid_scope scope ≡ true
    → is_timestamp_sec at ≡ true
    → ((get ledger key ≡ none) × (get (mark_revoked ledger scope at).0 key ≡ none))
      ⊎ ((r : BrowserCredentialRecord) × (r' : BrowserCredentialRecord) × (get ledger key ≡ some r)
          × (get (mark_revoked ledger scope at).0 key ≡ some r')
          × Marked scope at r r')
get-mark_revoked ledger scope at key hs ht =
    let e = get-mark_revoked_map ledger scope at key hs ht in
    elim (Option-cases (get ledger key)) [
      | inl f ↦ inl (f, e ∙ ap (map_value (revoke_in scope at)) f)
      | inr (r, f) ↦ inr (
        r,
        revoke_in scope at r,
        f,
        e ∙ ap (map_value (revoke_in scope at)) f,
        revoke_in-Marked scope at r,
      )
    ]

-- A sweep at a valid time removes the records that are past their retention and no other.
pub get-sweep :
    (ledger : MemoryBrowserCredentialLedger) (now : ℕ) (key : Text)
    → IsValid ledger
    → is_timestamp_sec now ≡ true
    → get (sweep ledger now).0 key
      ≡ keep_value (λ r. not (is_removable now ledger.retention_sec r)) (get ledger key)
unfolding sweep
get-sweep ledger now key v h =
    rw (h, sweep)
      (ap (lookup key) (sweep_rows-keep now ledger.retention_sec ledger.records)
        ∙ lookup-keep_values (λ r. not (is_removable now ledger.retention_sec r)) key ledger.records
            v)

pub mark_revoked-IsValid :
    (ledger : MemoryBrowserCredentialLedger) (scope : BrowserCredentialScope) (at : ℕ)
    → IsValid ledger
    → IsValid (mark_revoked ledger scope at).0
unfolding mark_revoked
mark_revoked-IsValid ledger scope at v =
    elim (is_valid_scope scope && is_timestamp_sec at)
      as (λ c.
        IsValid
          (if◌then◌else◌ {A = MemoryBrowserCredentialLedger × Result MarkRevokedResult} (not c)
            (ledger, thrown input_error)
            (
              record ledger { records = (stage scope at ledger.records).0 },
              returned (stage scope at ledger.records).1,
            )).0) [ true ↦ stage-IsDistinct scope at ledger.records v | false ↦ v ]

pub sweep-IsValid :
    (ledger : MemoryBrowserCredentialLedger) (now : ℕ)
    → IsValid ledger
    → IsValid (sweep ledger now).0
unfolding sweep
sweep-IsValid ledger now v = elim (Bool-cases (is_timestamp_sec now)) [
  | inl e ↦
      rw (e, sweep)
        (subst IsDistinct (sym (sweep_rows-keep now ledger.retention_sec ledger.records)) (
          keep_values-IsDistinct (λ r. not (is_removable now ledger.retention_sec r)) ledger.records
            v))
  | inr e ↦ rw (e, sweep) v
]

-- The record that `recordIssuance` stores.
abbrev pub issued : BrowserCredentialIssuance → BrowserCredentialRecord
issued i = record { issuance = i; status = active; revoked_at_sec = none }

-- The three answers to an issuance.
pub record_issuance_cases :
    (ledger : MemoryBrowserCredentialLedger) (i : BrowserCredentialIssuance)
    → ((record_issuance ledger i ≡ (ledger, thrown input_error)) × (is_valid_issuance i ≡ false))
      ⊎ ((r : BrowserCredentialRecord) × (record_issuance ledger i
            ≡ (ledger, thrown collision_error))
          × (get ledger i.user_pubkey ≡ some r))
      ⊎ ((record_issuance ledger i ≡ (
        record ledger { records = insert i.user_pubkey (issued i) ledger.records },
        returned (issued i),
      ))
          × (is_valid_issuance i ≡ true)
          × (get ledger i.user_pubkey ≡ none))
unfolding record_issuance
record_issuance_cases ledger i = elim (Bool-cases (is_valid_issuance i)) [
  | inr e ↦ inl (rw (e, record_issuance) refl, e)
  | inl e ↦ elim (Option-cases (lookup i.user_pubkey ledger.records)) [
    | inl f ↦ inr (inr (rw (e, f, record_issuance) refl, e, f))
    | inr (r, f) ↦ inr (inl (r, rw (e, f, record_issuance) refl, f))
  ]
]
