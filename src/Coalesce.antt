-- ===== src/Coalesce.antt =====
-- The message helpers of packages/plugin/src/inbound-queue.ts: a turn that merges several messages,
-- with the ids of its members. A message is its text, its id, if that is a string, and what its field
-- `coalescedIds` holds, if that is an array; other fields are left out.
pub mod Members
mod Tests
use openclaw_webchannel.Common.{
  ℕ, Bool, true, false, not, ◌&&◌, ◌||◌, Option, none, some, List, [], ◌∷◌, ◌++◌, map, Text,
  text_Eq, nat_Eq, ltb, leb, ◌==◌, if◌then◌else◌, length, any,
}
use openclaw_webchannel.Retention.{default_busy_turn_limits}

abbrev pub max_coalesced_member_id_length : ℕ
max_coalesced_member_id_length = 128

-- `DEFAULT_BUSY_TURN_LIMITS.maxMessagesPerSession`.
abbrev pub most_members : ℕ
most_members = default_busy_turn_limits.max_messages_per_session

-- An element of an array that no one has checked.
pub data Candidate : Type 0 where
  string : Text → Candidate
  other : Candidate

pub record UserMessage : Type 0 where
  pub text : Text
  pub id : Option Text
  pub coalesced_ids : Option (List Candidate)

pub normalize_inbound_user_message : UserMessage → UserMessage
normalize_inbound_user_message raw = record { text = raw.text; id = raw.id; coalesced_ids = none }

abbrev pub is_member_id : Text → Bool
is_member_id id = ltb 0 (length id) && leb (length id) max_coalesced_member_id_length

abbrev pub has_id : Text → List Text → Bool
has_id id ids = any (λ x. x == id) ids

-- The loop of `readCoalescedMemberIds`, with the ids read so far; the cap ends it.
pub read_candidates : List Text → List Candidate → List Text
read_candidates ids [] = ids
read_candidates ids (other ∷ rest) = read_candidates ids rest
read_candidates ids (string id ∷ rest) =
    let skipped = read_candidates ids rest in
    let taken = read_candidates (ids ++ (id ∷ [])) rest in
    if not (is_member_id id)
    then skipped
    else if leb most_members (length (ids ++ (id ∷ [])))
    then ids ++ (id ∷ [])
    else taken

pub read_coalesced_member_ids : UserMessage → List Text
unfolding read_candidates
read_coalesced_member_ids source = elim source.coalesced_ids [
  | none ↦ []
  | some raw ↦ read_candidates [] raw
]

-- `addId`, on the list and the set that hold the same ids.
pub add_id : List Text → Text → List Text
add_id ids id =
    if not (is_member_id id) || has_id id ids || leb most_members (length ids)
    then ids
    else ids ++ (id ∷ [])

pub add_ids : List Text → List Text → List Text
unfolding add_id
add_ids ids [] = ids
add_ids ids (id ∷ rest) = add_ids (add_id ids id) rest

abbrev pub add_own : List Text → Option Text → List Text
add_own ids none = ids
add_own ids (some id) = add_id ids id

-- The loop of `coalesceUserMessages`.
pub member_ids : List Text → List UserMessage → List Text
unfolding add_ids
member_ids ids [] = ids
member_ids ids (m ∷ rest) =
    member_ids (add_own (add_ids ids (read_coalesced_member_ids m)) m.id) rest

abbrev pub separator : Text
separator = 10 ∷ 10 ∷ []

pub join : List UserMessage → Text
join [] = []
join (m ∷ []) = m.text
join (m ∷ n ∷ rest) = m.text ++ (separator ++ join (n ∷ rest))

pub last_id : List UserMessage → Option Text
last_id [] = none
last_id (m ∷ []) = m.id
last_id (m ∷ n ∷ rest) = last_id (n ∷ rest)

-- `none` is the source's `undefined`, for no message.
pub coalesce_user_messages : List UserMessage → Option UserMessage
unfolding member_ids join last_id
coalesce_user_messages [] = none
coalesce_user_messages (m ∷ []) = some m
coalesce_user_messages (m ∷ n ∷ rest) =
    let ids = member_ids [] (m ∷ n ∷ rest) in
    some (record {
      text = join (m ∷ n ∷ rest);
      id = last_id (m ∷ n ∷ rest);
      coalesced_ids = if ltb 0 (length ids) then some (map string ids) else none;
    })
