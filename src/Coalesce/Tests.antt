-- ===== src/Coalesce/Tests.antt =====
-- A merged turn, and the theorem at it.
use openclaw_webchannel.Common.{
  Text, List, length, ltb, if◌then◌else◌, ◌≡◌, refl, some, none, [], ◌∷◌, map, codes, text_eq, All,
}
use openclaw_webchannel.Coalesce.{
  UserMessage, string, normalize_inbound_user_message, read_coalesced_member_ids, read_candidates,
  add_id, add_ids, member_ids, join, last_id, coalesce_user_messages,
}
use openclaw_webchannel.Coalesce.Members.{IsNamed, IsMembers, coalesce_bounded}

program : Unit {0}
unfolding text_eq normalize_inbound_user_message read_coalesced_member_ids read_candidates add_id
    add_ids member_ids join last_id coalesce_user_messages
program = tt

abbrev first : UserMessage
first = record {
  text = codes "a";
  id = some (codes "1");
  coalesced_ids = some (string (codes "x") ∷ []);
}

abbrev second : UserMessage
second = record { text = codes "b"; id = some (codes "2"); coalesced_ids = none }

merge_test :
    coalesce_user_messages (map normalize_inbound_user_message (first ∷ second ∷ []))
    ≡ some (record {
      text = 97 ∷ 10 ∷ 10 ∷ 98 ∷ [];
      id = some (codes "2");
      coalesced_ids = some (string (codes "1") ∷ string (codes "2") ∷ []);
    })
unfolding program
merge_test = refl

coalesce_bounded_example :
    (merged : UserMessage) × (ids : List Text) × (coalesce_user_messages (first ∷ second ∷ [])
      ≡ some merged)
    × (merged.coalesced_ids ≡ (if ltb 0 (length ids) then some (map string ids) else none))
    × (read_coalesced_member_ids merged ≡ ids)
    × IsMembers ids
    × All (IsNamed ids) (first ∷ second ∷ [])
coalesce_bounded_example = coalesce_bounded first second []
