-- ===== src/Ledger/Life.antt =====
-- Runs of the ledger: sequences of issuances, marks and sweeps.
use openclaw_webchannel.Common.{
  ℕ, ◌≡◌, refl, sym, ap, subst, ◌∙◌, Bool, true, false, not, none, some, List, [], ◌∷◌, Text,
  text_Eq, text_eq_iff, ◌==◌, if◌then◌else◌, lookup, lookup-insert, insert-IsDistinct, keep_value,
  All, Bool-cases, inl, inr, arith,
}
use openclaw_webchannel.Ledger.{
  BrowserCredentialIssuance, BrowserCredentialRecord, BrowserCredentialScope,
  MemoryBrowserCredentialLedger, active, revoked, is_timestamp_sec, is_valid_scope, in_scope,
  record_issuance, get, revoke_in, mark_revoked, is_removable, sweep,
}
use openclaw_webchannel.Ledger.Records.{
  IsValid, issued, map_value, record_issuance_cases, get-mark_revoked_map, get-sweep,
  mark_revoked-IsValid, sweep-IsValid,
}

pub data Call : Type 0 where
  issues : BrowserCredentialIssuance → Call
  marks : BrowserCredentialScope → ℕ → Call
  sweeps : ℕ → Call

unfoldable pub step : MemoryBrowserCredentialLedger → Call → MemoryBrowserCredentialLedger
step ledger (issues i) = (record_issuance ledger i).0
step ledger (marks scope at) = (mark_revoked ledger scope at).0
step ledger (sweeps now) = (sweep ledger now).0

unfoldable pub run : MemoryBrowserCredentialLedger → List Call → MemoryBrowserCredentialLedger
run ledger [] = ledger
run ledger (c ∷ cs) = run (step ledger c) cs

-- The call is a mark whose scope has the record.
abbrev pub covers : BrowserCredentialRecord → Call → Bool
covers r (issues i) = false
covers r (marks scope at) = in_scope scope r
covers r (sweeps now) = false

abbrev pub is_sweep : Call → Bool
is_sweep (issues i) = false
is_sweep (marks scope at) = false
is_sweep (sweeps now) = true

issue-IsValid :
    (ledger : MemoryBrowserCredentialLedger) (i : BrowserCredentialIssuance)
    → IsValid ledger
    → IsValid (record_issuance ledger i).0
issue-IsValid ledger i v = elim (record_issuance_cases ledger i) [
  | inl (e, _) ↦ subst (λ o. IsValid o.0) (sym e) v
  | inr (inl (_, e, _)) ↦ subst (λ o. IsValid o.0) (sym e) v
  | inr (inr (e, _, _)) ↦
      subst (λ o. IsValid o.0) (sym e) (insert-IsDistinct i.user_pubkey (issued i) ledger.records v)
]

-- An issuance leaves every record that is there.
issue-keeps :
    (ledger : MemoryBrowserCredentialLedger) (i : BrowserCredentialIssuance) (key : Text)
    (r : BrowserCredentialRecord)
    → get ledger key ≡ some r
    → get (record_issuance ledger i).0 key ≡ some r
issue-keeps ledger i key r h = elim (record_issuance_cases ledger i) [
  | inl (e, _) ↦ subst (λ o. get o.0 key ≡ some r) (sym e) h
  | inr (inl (_, e, _)) ↦ subst (λ o. get o.0 key ≡ some r) (sym e) h
  | inr (inr (e, _, n)) ↦
      subst (λ o. get o.0 key ≡ some r) (sym e)
        (lookup-insert i.user_pubkey key (issued i) ledger.records
          ∙ other (i.user_pubkey == key) (λ s.
            absurd (clash (sym n ∙ (ap (get ledger) ((text_eq_iff i.user_pubkey key).0 s) ∙ h)))))
]
  where
    clash : none ≡ some r → ⊥
    clash e = ground arith

    other :
        (c : Bool)
        → (c ≡ true → ⊥)
        → (if c then some (issued i) else lookup key ledger.records) ≡ some r
    other true f = absurd (f refl)
    other false f = h

mark-keeps :
    (ledger : MemoryBrowserCredentialLedger) (scope : BrowserCredentialScope) (at : ℕ) (key : Text)
    (r : BrowserCredentialRecord)
    → get ledger key ≡ some r
    → revoke_in scope at r ≡ r
    → get (mark_revoked ledger scope at).0 key ≡ some r
unfolding mark_revoked
mark-keeps ledger scope at key r h same = elim (Bool-cases (is_valid_scope scope)) [
  | inr e ↦ rw (e, mark_revoked) h
  | inl e ↦ elim (Bool-cases (is_timestamp_sec at)) [
    | inr f ↦ rw (e, f, mark_revoked) h
    | inl f ↦
        get-mark_revoked_map ledger scope at key e f
        ∙ (ap (map_value (revoke_in scope at)) h ∙ ap some same)
  ]
]

sweep-keeps :
    (ledger : MemoryBrowserCredentialLedger) (now : ℕ) (key : Text) (r : BrowserCredentialRecord)
    → IsValid ledger
    → get ledger key ≡ some r
    → is_removable now ledger.retention_sec r ≡ false
    → get (sweep ledger now).0 key ≡ some r
unfolding sweep
sweep-keeps ledger now key r v h stays = elim (Bool-cases (is_timestamp_sec now)) [
  | inr e ↦ rw (e, sweep) h
  | inl e ↦
      get-sweep ledger now key v e
      ∙ (ap (keep_value (λ r. not (is_removable now ledger.retention_sec r))) h
          ∙ ap (λ c. if not c then some r else none) stays)
]

pub step-IsValid :
    (ledger : MemoryBrowserCredentialLedger) (c : Call) → IsValid ledger → IsValid (step ledger c)
unfolding step
step-IsValid ledger (issues i) v = issue-IsValid ledger i v
step-IsValid ledger (marks scope at) v = mark_revoked-IsValid ledger scope at v
step-IsValid ledger (sweeps now) v = sweep-IsValid ledger now v

-- Whatever is issued, marked and swept, and at whatever times: a record that is active and does not
-- expire stays in the ledger, unchanged, as long as no mark's scope has it.
pub never_forgotten :
    (ledger : MemoryBrowserCredentialLedger) (calls : List Call) (key : Text)
    (r : BrowserCredentialRecord)
    → IsValid ledger
    → get ledger key ≡ some r
    → r.status ≡ active
    → r.issuance.expires_at_sec ≡ none
    → All (λ c. covers r c ≡ false) calls
    → get (run ledger calls) key ≡ some r
unfolding run step
never_forgotten ledger [] key r v h a x n = h
never_forgotten ledger (c ∷ cs) key r v h a x n =
    never_forgotten (step ledger c) cs key r (step-IsValid ledger c v) (stays c (n.0)) a x n.1
  where
    stays : (c : Call) → covers r c ≡ false → get (step ledger c) key ≡ some r
    stays (issues i) o = issue-keeps ledger i key r h
    stays (marks scope at) o = mark-keeps ledger scope at key r h (ground (arith, o))
    stays (sweeps now) o = sweep-keeps ledger now key r v h (ground (arith, a, x))

-- Until a sweep, a revoked record stays as it is, whatever is issued and marked: it keeps the time
-- of its revocation and is never active again.
pub revoked_stays :
    (ledger : MemoryBrowserCredentialLedger) (calls : List Call) (key : Text)
    (r : BrowserCredentialRecord)
    → get ledger key ≡ some r
    → r.status ≡ revoked
    → All (λ c. is_sweep c ≡ false) calls
    → get (run ledger calls) key ≡ some r
unfolding run step
revoked_stays ledger [] key r h s n = h
revoked_stays ledger (c ∷ cs) key r h s n =
    revoked_stays (step ledger c) cs key r (stays c (n.0)) s n.1
  where
    stays : (c : Call) → is_sweep c ≡ false → get (step ledger c) key ≡ some r
    stays (issues i) o = issue-keeps ledger i key r h
    stays (marks scope at) o = mark-keeps ledger scope at key r h (ground (arith, s))
    stays (sweeps now) o = absurd (ground (arith, o))
