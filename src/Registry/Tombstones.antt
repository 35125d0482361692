-- ===== src/Registry/Tombstones.antt =====
-- The revoked rows of a slot, in enrollment-repository.ts.
use openclaw_webchannel.Common.{
  ℕ, ◌≡◌, refl, sym, subst, Bool, true, false, Option, none, some, List, [], ◌∷◌, Text, text_Eq,
  text_eq_iff, ◌==◌, if◌then◌else◌, Bool-cases, Option-cases, inl, inr, arith,
}
use openclaw_webchannel.Registry.{
  AgentKeyRecord, key_revoked, KeyStatus, active, superseded, is_active, is_revoked, History,
  Histories, history_of, find_active, end_active, supersede, revoke, was_revoked, expects_other,
  register_history, register_sync, agent_key_registry_key,
}
use openclaw_webchannel.Registry.Slots.{
  changed, SlotCall, registers, revokes, step, run, history_of-register, history_of-revoke,
}

module _ (key_id : Text → Text) (key : Text) where
  end-was_revoked :
      (f : AgentKeyRecord → AgentKeyRecord) (h : History)
      → was_revoked key_id key h ≡ true
      → was_revoked key_id key (end_active f h) ≡ true
  unfolding end_active
  end-was_revoked f [] e = e
  end-was_revoked f (r ∷ h) e = elim (Bool-cases (is_active r.status)) [
    | inl a ↦ ground (arith, a, e, active-not_revoked r.status)
    | inr a ↦ ground (arith, a, e, end-was_revoked f h)
  ]
    where
      active-not_revoked : (s : KeyStatus) → is_active s ≡ true → is_revoked s ≡ false
      active-not_revoked active e = refl
      active-not_revoked superseded e = refl
      active-not_revoked KeyStatus.revoked e = absurd (ground arith)

  register-was_revoked :
      (h : History) (now : ℕ) (activation tenant account other : Text) (expect : Option Text)
      → was_revoked key_id key h ≡ true
      → was_revoked key_id key
          (changed (register_history key_id h now activation tenant account other expect).0 h)
        ≡ true
  unfolding register_history changed
  register-was_revoked h now activation tenant account other expect s =
      elim (Bool-cases (was_revoked key_id other h)) [
        | inl e ↦ rw (e, register_history) s
        | inr e ↦ elim (Option-cases (find_active h)) [
          | inl f ↦ elim (Bool-cases (expects_other expect none)) [
            | inl g ↦ rw (e, f, g, register_history) s
            | inr g ↦ rw (e, f, g, register_history) s
          ]
          | inr (a, f) ↦ elim (Bool-cases (a.public_key == other)) [
            | inl g ↦ rw (e, f, g, register_history) s
            | inr g ↦ elim (Bool-cases (expects_other expect (some a))) [
              | inl k ↦ rw (e, f, g, k, register_history) s
              | inr k ↦
                  rw (e, f, g, k, register_history) (end-was_revoked (supersede now activation) h s)
            ]
          ]
        ]
      ]

  step-was_revoked :
      (hs : Histories) (c : SlotCall) (slot : Text)
      → was_revoked key_id key (history_of hs slot) ≡ true
      → was_revoked key_id key (history_of (step key_id hs c) slot) ≡ true
  unfolding step
  step-was_revoked hs (registers now activation tenant account other expect) slot s =
      let own = agent_key_registry_key tenant account in
      subst (λ h. was_revoked key_id key h ≡ true)
        (sym (history_of-register key_id hs now activation tenant account other expect slot))
        (pick own (own == slot) ((text_eq_iff own slot).0))
    where
      pick :
          (own : Text) (c : Bool)
          → (c ≡ true → own ≡ slot)
          → was_revoked key_id key (
              if c
              then changed
                  (register_history key_id
                    (history_of hs own)
                    now
                    activation
                    tenant
                    account
                    other
                    expect).0
                  (history_of hs own)
              else history_of hs slot)
            ≡ true
      pick own true f =
          register-was_revoked (history_of hs own) now activation tenant account other expect
            (subst (λ t. was_revoked key_id key (history_of hs t) ≡ true) (sym (f refl)) s)
      pick own false f = s
  step-was_revoked hs (revokes now tenant account) slot s =
      elim (history_of-revoke key_id hs now tenant account slot) [
        | inl e ↦ subst (λ h. was_revoked key_id key h ≡ true) (sym e) s
        | inr e ↦
            subst (λ h. was_revoked key_id key h ≡ true) (sym e)
              (end-was_revoked (revoke now) (history_of hs slot) s)
      ]

  run-was_revoked :
      (hs : Histories) (calls : List SlotCall) (slot : Text)
      → was_revoked key_id key (history_of hs slot) ≡ true
      → was_revoked key_id key (history_of (run key_id hs calls) slot) ≡ true
  unfolding run
  run-was_revoked hs [] slot s = s
  run-was_revoked hs (c ∷ cs) slot s =
      run-was_revoked (step key_id hs c) cs slot (step-was_revoked hs c slot s)

  refuse :
      (hs : Histories) (now : ℕ) (activation tenant account : Text) (expect : Option Text)
      → was_revoked key_id key (history_of hs (agent_key_registry_key tenant account)) ≡ true
      → register_sync key_id hs now activation tenant account key expect ≡ (hs, key_revoked)
  unfolding register_sync register_history
  refuse hs now activation tenant account expect s = rw (s, register_sync, register_history) refl

-- Once a slot has a revoked row with a key's identifier, the slot refuses the key and changes nothing,
-- whatever was registered and revoked in between and whatever the caller expects.
pub revoked_key_refused :
    (key_id : Text → Text) (key : Text) (hs : Histories) (calls : List SlotCall) (now : ℕ)
    (activation tenant account : Text) (expect : Option Text)
    → was_revoked key_id key (history_of hs (agent_key_registry_key tenant account)) ≡ true
    → register_sync key_id (run key_id hs calls) now activation tenant account key expect
      ≡ (run key_id hs calls, key_revoked)
revoked_key_refused key_id key hs calls now activation tenant account expect s =
    refuse key_id key (run key_id hs calls) now activation tenant account expect
      (run-was_revoked key_id key hs calls (agent_key_registry_key tenant account) s)
