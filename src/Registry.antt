-- ===== src/Registry.antt =====
-- packages/saas/src/agent-key-registry.ts, and the registry's half of the class in
-- packages/saas/src/enrollment-repository.ts: the keys of an agent's slot, newest first. The SHA-256
-- of node:crypto, `key_id`, is a parameter; the clock and the random activation id are arguments.
pub mod Slots
pub mod Tombstones
pub mod Activation
mod Tests
use openclaw_webchannel.Common.{
  decimal_fuel, decimal, ℕ, zero, suc, ◌+◌, ◌/◌, ◌%◌, Bool, true, false, not, ◌&&◌, ◌||◌, Option,
  none, some, List, [], ◌∷◌, ◌++◌, map, Text, codes, text_Eq, nat_Eq, ltb, ◌==◌, if◌then◌else◌,
  length, any, lookup, insert,
}

pub data KeyStatus : Type 0 where
  active superseded revoked : KeyStatus

abbrev pub is_active : KeyStatus → Bool
is_active active = true
is_active superseded = false
is_active revoked = false

abbrev pub is_revoked : KeyStatus → Bool
is_revoked active = false
is_revoked superseded = false
is_revoked revoked = true

pub record AgentKeyRecord : Type 0 where
  pub tenant : Text
  pub account_id : Text
  pub public_key : Text
  pub key_id : Text
  pub activation_id : Text
  pub status : KeyStatus
  pub enrolled_at : ℕ
  pub ended_at : Option ℕ
  pub superseded_by : Option Text

pub data RegisterAgentKeyResult : Type 0 where
  registered : AgentKeyRecord → Bool → RegisterAgentKeyResult
  conflict : Option AgentKeyRecord → RegisterAgentKeyResult
  key_revoked : RegisterAgentKeyResult

unfoldable pub agent_key_registry_key : Text → Text → Text
unfolding decimal_fuel
agent_key_registry_key tenant account =
    decimal (length tenant)
    ++ (b':' ∷ (tenant ++ (b'/' ∷ (decimal (length account) ++ (b':' ∷ account)))))

abbrev pub History : Type 0
History = List AgentKeyRecord

abbrev pub Histories : Type 0
Histories = List (Text × History)

abbrev pub found_history : Option History → History
found_history none = []
found_history (some h) = h

-- `this.histories.get(slot) ?? []`.
abbrev pub history_of : Histories → Text → History
history_of histories slot = found_history (lookup slot histories)

-- `history.find((r) => r.status === "active")`.
unfoldable pub find_active : History → Option AgentKeyRecord
find_active [] = none
find_active (r ∷ rs) = if is_active r.status then some r else find_active rs

-- `history.map` with a change at the index of the first active row alone.
unfoldable pub end_active : (AgentKeyRecord → AgentKeyRecord) → History → History
end_active f [] = []
end_active f (r ∷ rs) = if is_active r.status then f r ∷ rs else r ∷ end_active f rs

abbrev pub supersede : ℕ → Text → AgentKeyRecord → AgentKeyRecord
supersede now by r = record r { status = superseded; ended_at = some now; superseded_by = some by }

abbrev pub revoke : ℕ → AgentKeyRecord → AgentKeyRecord
revoke now r = record r { status = revoked; ended_at = some now }

abbrev pub is_key : Option AgentKeyRecord → Text → Bool
is_key none key = false
is_key (some r) key = r.public_key == key

-- The compare-and-set guard of `registerSync`, true when it fails.
abbrev pub expects_other : Option Text → Option AgentKeyRecord → Bool
expects_other none none = false
expects_other none (some r) = true
expects_other (some e) none = true
expects_other (some e) (some r) = not (r.activation_id == e)

abbrev pub get_active : Histories → Text → Text → Option AgentKeyRecord
get_active histories tenant account =
    find_active (history_of histories (agent_key_registry_key tenant account))

pub revoke_active : Histories → ℕ → Text → Text → Histories × Bool
unfolding find_active end_active
revoke_active histories now tenant account =
    let slot = agent_key_registry_key tenant account in
    elim (find_active (history_of histories slot)) [
      | none ↦ (histories, false)
      | some r ↦ (insert slot (end_active (revoke now) (history_of histories slot)) histories, true)
    ]

module _ (key_id : Text → Text) where
  abbrev pub was_revoked : Text → History → Bool
  was_revoked key history = any (λ r. is_revoked r.status && r.key_id == key_id key) history

  abbrev pub new_record : Text → Text → Text → ℕ → Text → AgentKeyRecord
  new_record tenant account key now activation = record {
    tenant = tenant;
    account_id = account;
    public_key = key;
    key_id = key_id key;
    activation_id = activation;
    status = active;
    enrolled_at = now;
    ended_at = none;
    superseded_by = none;
  }

  -- The change of one slot: the new history, or `none` where `registerSync` writes nothing.
  unfoldable pub register_history :
      History
      → ℕ
      → Text
      → Text
      → Text
      → Text
      → Option Text
      → Option History × RegisterAgentKeyResult
  unfolding find_active end_active
  register_history history now activation tenant account key expect =
      if was_revoked key history then (none, key_revoked) else elim (find_active history) [
        | none ↦
            if expects_other expect none
            then (none, conflict none)
            else (let r = new_record tenant account key now activation in
                (some (r ∷ history), registered r false))
        | some a ↦
            if a.public_key == key
            then (none, registered a true)
            else if expects_other expect (some a)
            then (none, conflict (some a))
            else (let r = new_record tenant account key now activation in
                (some (r ∷ end_active (supersede now activation) history), registered r false))
      ]

  unfoldable pub register_sync :
      Histories → ℕ → Text → Text → Text → Text → Option Text → Histories × RegisterAgentKeyResult
  unfolding register_history agent_key_registry_key
  register_sync histories now activation tenant account key expect =
      let slot = agent_key_registry_key tenant account in
      let (next, result) =
        register_history (history_of histories slot) now activation tenant account key expect in
      (elim next [ none ↦ histories | some h ↦ insert slot h histories ], result)
