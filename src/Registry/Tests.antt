-- ===== src/Registry/Tests.antt =====
-- Runs of the registry, and the theorems at inputs that meet their hypotheses.
use openclaw_webchannel.Common.{
  decimal_fuel, ◌≤◌, ◌≡◌, refl, some, none, List, [], ◌∷◌, Text, codes, text_eq, lookup, insert,
}
use openclaw_webchannel.Registry.{
  register_sync, register_history, history_of, find_active, end_active, revoke_active,
  agent_key_registry_key, key_revoked,
}
use openclaw_webchannel.Registry.Slots.{
  SlotCall, registers, revokes, step, run, count_active, one_active,
}
use openclaw_webchannel.Registry.Tombstones.{revoked_key_refused}

program : Unit {0}
unfolding text_eq lookup insert register_sync register_history find_active end_active revoke_active
    agent_key_registry_key decimal_fuel step run
program = tt

abbrev same : Text → Text
same t = t

abbrev calls : List SlotCall
calls =
    registers 1 (codes "x") (codes "t") (codes "a") (codes "K") none
    ∷ registers 2 (codes "y") (codes "t") (codes "a") (codes "L") (some (codes "x"))
    ∷ revokes 3 (codes "t") (codes "a")
    ∷ []

key_test :
    agent_key_registry_key (codes "tenant") (codes "0123456789ab")
    ≡ codes "6:tenant/12:0123456789ab"
unfolding program
key_test = refl

abbrev slot : Text
slot = agent_key_registry_key (codes "t") (codes "a")

one_active_example : count_active (history_of (run same [] calls) slot) ≤ 1
one_active_example = one_active same calls slot

revoked_key_refused_example :
    register_sync same
      (run same (run same [] calls) calls)
      9
      (codes "z")
      (codes "t")
      (codes "a")
      (codes "L")
      none
    ≡ (run same (run same [] calls) calls, key_revoked)
unfolding program
revoked_key_refused_example =
    revoked_key_refused same (codes "L") (run same [] calls) calls 9 (codes "z") (codes "t")
      (codes "a") none refl
