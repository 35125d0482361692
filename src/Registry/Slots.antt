-- ===== src/Registry/Slots.antt =====
-- The active keys of a slot in enrollment-repository.ts, over sequences of calls.
use openclaw_webchannel.Common.{
  ℕ, ◌-◌, ◌≤◌, ◌≡◌, refl, sym, ap, subst, ◌∙◌, Bool, true, false, Option, none, some, List, [], ◌∷◌,
  Text, text_Eq, text_eq_iff, ◌==◌, if◌then◌else◌, sum_by, lookup, lookup-insert, Bool-cases,
  Option-cases, inl, inr, ◌⊎◌, arith,
}
use openclaw_webchannel.Registry.{
  AgentKeyRecord, is_active, History, Histories, found_history, history_of, find_active, end_active,
  supersede, revoke, revoke_active, was_revoked, expects_other, register_history, register_sync,
  agent_key_registry_key,
}

abbrev pub one_if_active : AgentKeyRecord → ℕ
one_if_active r = if is_active r.status then 1 else 0

abbrev pub count_active : History → ℕ
count_active h = sum_by one_if_active h

find-none : (h : History) → find_active h ≡ none → count_active h ≡ 0
unfolding find_active
find-none [] e = refl
find-none (r ∷ h) e = ground (arith, find-none h)

end-count :
    (f : AgentKeyRecord → AgentKeyRecord)
    → ((r : AgentKeyRecord) → is_active (f r).status ≡ false)
    → (h : History) → count_active (end_active f h) ≡ count_active h - 1
unfolding end_active
end-count f n [] = omega arith
end-count f n (r ∷ h) = elim (Bool-cases (is_active r.status)) [
  | inl e ↦ rw (e, n r) (omega arith)
  | inr e ↦ ground (arith, e, end-count f n h)
]

-- What a slot's history becomes.
unfoldable pub changed : Option History → History → History
changed none h = h
changed (some h') h = h'

module _ (key_id : Text → Text) where
  pub register-count :
      (h : History) (now : ℕ) (activation tenant account key : Text) (expect : Option Text)
      → count_active h ≤ 1
      → count_active
          (changed (register_history key_id h now activation tenant account key expect).0 h)
        ≤ 1
  unfolding register_history changed
  register-count h now activation tenant account key expect s =
      elim (Bool-cases (was_revoked key_id key h)) [
        | inl e ↦ rw (e, register_history) s
        | inr e ↦ elim (Option-cases (find_active h)) [
          | inl f ↦ elim (Bool-cases (expects_other expect none)) [
            | inl g ↦ rw (e, f, g, register_history) s
            | inr g ↦ rw (e, f, g, register_history) (omega (arith, find-none h f))
          ]
          | inr (a, f) ↦ elim (Bool-cases (a.public_key == key)) [
            | inl g ↦ rw (e, f, g, register_history) s
            | inr g ↦ elim (Bool-cases (expects_other expect (some a))) [
              | inl k ↦ rw (e, f, g, k, register_history) s
              | inr k ↦
                  rw (e, f, g, k, register_history)
                    (omega (arith, end-count (supersede now activation) (λ r. refl) h))
            ]
          ]
        ]
      ]

pub data SlotCall : Type 0 where
  registers : ℕ → Text → Text → Text → Text → Option Text → SlotCall
  revokes : ℕ → Text → Text → SlotCall

module _ (key_id : Text → Text) where
  unfoldable pub step : Histories → SlotCall → Histories
  step histories (registers now activation tenant account key expect) =
      (register_sync key_id histories now activation tenant account key expect).0
  step histories (revokes now tenant account) = (revoke_active histories now tenant account).0

  unfoldable pub run : Histories → List SlotCall → Histories
  run histories [] = histories
  run histories (c ∷ cs) = run (step histories c) cs

  -- Every slot that a call leaves is one that was there, or its change.
  pub history_of-register :
      (hs : Histories) (now : ℕ) (activation tenant account key : Text) (expect : Option Text)
      (slot : Text)
      → let own = agent_key_registry_key tenant account in
        history_of (register_sync key_id hs now activation tenant account key expect).0 slot ≡ (
          if own == slot
          then changed
              (register_history key_id
                (history_of hs own)
                now
                activation
                tenant
                account
                key
                expect).0
              (history_of hs own)
          else history_of hs slot)
  unfolding register_sync changed
  history_of-register hs now activation tenant account key expect slot =
      let own = agent_key_registry_key tenant account in
      elim (Option-cases
        (register_history key_id (history_of hs own) now activation tenant account key expect).0) [
          | inl e ↦
              rw (e, register_sync)
                (own_slot (history_of hs own) (history_of hs slot) (own == slot)
                  (λ c. ap (history_of hs) (sym ((text_eq_iff own slot).0 c))))
          | inr (h, e) ↦
              rw (e, register_sync)
                (ap found_history (lookup-insert own slot h hs)
                  ∙ under (own == slot) h (lookup slot hs))
        ]
    where
      own_slot : (x y : History) (c : Bool) → (c ≡ true → y ≡ x) → y ≡ (if c then x else y)
      own_slot x y true f = f refl
      own_slot x y false f = refl

      under :
          (c : Bool) (h : History) (o : Option History)
          → found_history (if c then some h else o) ≡ (if c then h else found_history o)
      under true h o = refl
      under false h o = refl

  pub history_of-revoke :
      (hs : Histories) (now : ℕ) (tenant account : Text) (slot : Text)
      → (history_of (revoke_active hs now tenant account).0 slot ≡ history_of hs slot)
        ⊎ (history_of (revoke_active hs now tenant account).0 slot
            ≡ end_active (revoke now) (history_of hs slot))
  unfolding revoke_active
  history_of-revoke hs now tenant account slot =
      let own = agent_key_registry_key tenant account in
      elim (Option-cases (find_active (history_of hs own))) [
        | inl e ↦ inl (rw (e, revoke_active) refl)
        | inr (a, e) ↦ elim (Bool-cases (own == slot)) [
          | inl c ↦ inr (
              rw (e, revoke_active)
                (ap found_history
                    (lookup-insert own slot (end_active (revoke now) (history_of hs own)) hs)
                  ∙ (rw c (
                      ap (λ s. end_active (revoke now) (history_of hs s))
                        ((text_eq_iff own slot).0 c)))))
          | inr c ↦ inl (
              rw (e, revoke_active)
                (ap found_history
                    (lookup-insert own slot (end_active (revoke now) (history_of hs own)) hs)
                  ∙ (rw c refl)))
        ]
      ]

  abbrev pub IsSound : Histories → Type 0
  IsSound hs = (slot : Text) → count_active (history_of hs slot) ≤ 1

  step-IsSound : (hs : Histories) (c : SlotCall) → IsSound hs → IsSound (step hs c)
  unfolding step
  step-IsSound hs (registers now activation tenant account key expect) s slot =
      let own = agent_key_registry_key tenant account in
      subst (λ h. count_active h ≤ 1)
        (sym (history_of-register hs now activation tenant account key expect slot))
        (pick (own == slot)
          (changed
            (register_history key_id (history_of hs own) now activation tenant account key expect).0
            (history_of hs own))
          (history_of hs slot)
          (register-count key_id (history_of hs own) now activation tenant account key expect
            (s own))
          (s slot))
    where
      pick :
          (c : Bool) (x y : History)
          → count_active x ≤ 1
          → count_active y ≤ 1
          → count_active (if c then x else y) ≤ 1
      pick true x y p q = p
      pick false x y p q = q
  step-IsSound hs (revokes now tenant account) s slot =
      elim (history_of-revoke hs now tenant account slot) [
        | inl e ↦ subst (λ h. count_active h ≤ 1) (sym e) (s slot)
        | inr e ↦
            subst (λ h. count_active h ≤ 1) (sym e)
              (omega (arith, end-count (revoke now) (λ r. refl) (history_of hs slot), s slot))
      ]

  run-IsSound : (hs : Histories) (calls : List SlotCall) → IsSound hs → IsSound (run hs calls)
  unfolding run
  run-IsSound hs [] s = s
  run-IsSound hs (c ∷ cs) s = run-IsSound (step hs c) cs (step-IsSound hs c s)

  -- Whatever keys are registered and revoked, from an empty registry, no slot has two active keys.
  pub one_active :
      (calls : List SlotCall) (slot : Text) → count_active (history_of (run [] calls) slot) ≤ 1
  unfolding lookup
  one_active calls slot = run-IsSound [] calls (λ s. omega arith) slot
