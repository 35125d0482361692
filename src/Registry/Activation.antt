-- ===== src/Registry/Activation.antt =====
-- The registration of enrollment-repository.ts and the active key of its slot.
use openclaw_webchannel.Common.{
  ℕ, ◌≡◌, ap, ◌∙◌, Bool, Option, none, some, Text, text_Eq, ◌==◌, if◌then◌else◌, agree_refl,
  Bool-cases, Option-cases, inl, inr, arith,
}
use openclaw_webchannel.Registry.{
  AgentKeyRecord, RegisterAgentKeyResult, registered, conflict, key_revoked, History, Histories,
  history_of, find_active, get_active, was_revoked, expects_other, register_history, register_sync,
  agent_key_registry_key,
}
use openclaw_webchannel.Registry.Slots.{changed, history_of-register}

registered_inj : (a b : AgentKeyRecord) (c d : Bool) → registered a c ≡ registered b d → a ≡ b
registered_inj a b c d e = ap key_of e
  where
    key_of : RegisterAgentKeyResult → AgentKeyRecord
    key_of (registered k _) = k
    key_of (conflict _) = a
    key_of key_revoked = a

module _ (key_id : Text → Text) where
  register_history-active :
      (h : History) (now : ℕ) (activation tenant account key : Text) (expect : Option Text)
      (k : AgentKeyRecord) (again : Bool)
      → (register_history key_id h now activation tenant account key expect).1 ≡ registered k again
      → find_active
          (changed (register_history key_id h now activation tenant account key expect).0 h)
        ≡ some k
  unfolding register_history changed find_active
  register_history-active h now activation tenant account key expect k again =
      elim (Bool-cases (was_revoked key_id key h)) [
        | inl e ↦ rw (e, register_history) (λ o. absurd (ground (arith, o)))
        | inr e ↦ elim (Option-cases (find_active h)) [
          | inl f ↦ elim (Bool-cases (expects_other expect none)) [
            | inl g ↦ rw (e, f, g, register_history) (λ o. absurd (ground (arith, o)))
            | inr g ↦ rw (e, f, g, register_history) (λ o. ap some (registered_inj _ k _ again o))
          ]
          | inr (a, f) ↦ elim (Bool-cases (a.public_key == key)) [
            | inl g ↦
                rw (e, f, g, register_history) (λ o. f ∙ ap some (registered_inj _ k _ again o))
            | inr g ↦ elim (Bool-cases (expects_other expect (some a))) [
              | inl l ↦ rw (e, f, g, l, register_history) (λ o. absurd (ground (arith, o)))
              | inr l ↦
                  rw (e, f, g, l, register_history) (λ o. ap some (registered_inj _ k _ again o))
            ]
          ]
        ]
      ]

  -- A registration that answers with a record leaves that record as the active one of the slot.
  pub register_sync-active :
      (hs : Histories) (now : ℕ) (activation tenant account key : Text) (expect : Option Text)
      (k : AgentKeyRecord) (again : Bool)
      → (register_sync key_id hs now activation tenant account key expect).1 ≡ registered k again
      → get_active
          (register_sync key_id hs now activation tenant account key expect).0
          tenant
          account
        ≡ some k
  unfolding register_sync
  register_sync-active hs now activation tenant account key expect k again o =
      let own = agent_key_registry_key tenant account in
      ap find_active (
        history_of-register key_id hs now activation tenant account key expect own
        ∙ ap
            (λ c.
              if c
              then changed
                  (register_history key_id (history_of hs own) now activation tenant account key
                    expect).0
                  (history_of hs own)
              else history_of hs own)
            (agree_refl own))
      ∙ register_history-active (history_of hs own) now activation tenant account key expect k again
          o
