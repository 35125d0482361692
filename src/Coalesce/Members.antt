-- ===== src/Coalesce/Members.antt =====
-- The member ids of a merged turn.
use openclaw_webchannel.Common.{
  ◌⊎◌, ℕ, ◌+◌, ◌≤◌, ◌<◌, ◌≡◌, refl, sym, ap, subst, ◌∙◌, Bool, true, false, not, ◌||◌, Option, none,
  some, List, [], ◌∷◌, ◌++◌, map, append-nil, append_assoc, Text, text_Eq, text_eq_iff, nat_Eq, ltb,
  leb, if◌then◌else◌, length, All, All-append, length-append, Bool-cases, inl, inr, arith,
}
use openclaw_webchannel.Coalesce.{
  string, UserMessage, is_member_id, most_members, has_id, read_candidates,
  read_coalesced_member_ids, add_id, add_ids, add_own, member_ids, coalesce_user_messages, join,
  last_id, normalize_inbound_user_message,
}

-- A member list as the source keeps it.
pub record IsMembers (ids : List Text) : Type 0 where
  pub member : All (λ id. is_member_id id ≡ true) ids
  pub few : length ids ≤ most_members

add_id-IsMembers : (ids : List Text) (id : Text) → IsMembers ids → IsMembers (add_id ids id)
unfolding add_id
add_id-IsMembers ids id v =
    elim (Bool-cases (not (is_member_id id) || has_id id ids || leb most_members (length ids))) [
      | inl e ↦ rw (e, add_id) v
      | inr e ↦
          rw (e, add_id)
            (record {
              member =
                  All-append (λ id. is_member_id id ≡ true) ids (id ∷ []) v.member
                    (ground (arith, e), tt);
              few = ground (arith, e, length-append ids (id ∷ []));
            })
    ]

add_ids-IsMembers : (ids new : List Text) → IsMembers ids → IsMembers (add_ids ids new)
unfolding add_ids
add_ids-IsMembers ids [] v = v
add_ids-IsMembers ids (id ∷ new) v =
    add_ids-IsMembers (add_id ids id) new (add_id-IsMembers ids id v)

add_own-IsMembers :
    (ids : List Text) (id : Option Text) → IsMembers ids → IsMembers (add_own ids id)
add_own-IsMembers ids none v = v
add_own-IsMembers ids (some id) v = add_id-IsMembers ids id v

member_ids-IsMembers :
    (ids : List Text) (ms : List UserMessage) → IsMembers ids → IsMembers (member_ids ids ms)
unfolding member_ids
member_ids-IsMembers ids [] v = v
member_ids-IsMembers ids (m ∷ ms) v =
    member_ids-IsMembers (add_own (add_ids ids (read_coalesced_member_ids m)) m.id) ms (
      add_own-IsMembers (add_ids ids (read_coalesced_member_ids m)) m.id
        (add_ids-IsMembers ids (read_coalesced_member_ids m) v))

read_candidates_lem :
    (ids new : List Text)
    → All (λ id. is_member_id id ≡ true) new
    → length ids + length new ≤ most_members
    → read_candidates ids (map string new) ≡ ids ++ new
unfolding read_candidates
read_candidates_lem ids [] a l = sym (append-nil ids)
read_candidates_lem ids (id ∷ []) a l =
    rw (a.0, read_candidates)
      (if_same (leb most_members (length (ids ++ (id ∷ [])))) (ids ++ (id ∷ [])))
  where
    if_same : (c : Bool) (x : List Text) → (if c then x else x) ≡ x
    if_same true x = refl
    if_same false x = refl
read_candidates_lem ids (id ∷ next ∷ new) a l =
    let rest =
      read_candidates_lem (ids ++ (id ∷ [])) (next ∷ new) a.1
        (omega (arith, length-append ids (id ∷ []), l)) in
    let short : leb most_members (length (ids ++ (id ∷ []))) ≡ false =
      not_full (length (ids ++ (id ∷ []))) (omega (arith, length-append ids (id ∷ []), l)) in
    rw (a.0, short, read_candidates) (rest ∙ append_assoc ids (id ∷ []) (next ∷ new))
  where
    not_full : (n : ℕ) → n < most_members → leb most_members n ≡ false
    not_full n h = ground arith

has_id-append : (t : Text) (xs ys : List Text) → has_id t (xs ++ ys) ≡ (has_id t xs || has_id t ys)
has_id-append t [] ys = refl
has_id-append t (x ∷ xs) ys = ground (arith, has_id-append t xs ys)

add_id-keeps :
    (t : Text) (ids : List Text) (id : Text) → has_id t ids ≡ true → has_id t (add_id ids id) ≡ true
unfolding add_id
add_id-keeps t ids id h =
    elim (Bool-cases (not (is_member_id id) || has_id id ids || leb most_members (length ids))) [
      | inl e ↦ rw (e, add_id) h
      | inr e ↦ rw (e, add_id) (has_id-append t ids (id ∷ []) ∙ ap (λ c. c || has_id t (id ∷ [])) h)
    ]

add_ids-keeps :
    (t : Text) (ids new : List Text) → has_id t ids ≡ true → has_id t (add_ids ids new) ≡ true
unfolding add_ids
add_ids-keeps t ids [] h = h
add_ids-keeps t ids (id ∷ new) h = add_ids-keeps t (add_id ids id) new (add_id-keeps t ids id h)

add_own-keeps :
    (t : Text) (ids : List Text) (id : Option Text)
    → has_id t ids ≡ true
    → has_id t (add_own ids id) ≡ true
add_own-keeps t ids none h = h
add_own-keeps t ids (some id) h = add_id-keeps t ids id h

member_ids-keeps :
    (t : Text) (ids : List Text) (ms : List UserMessage)
    → has_id t ids ≡ true
    → has_id t (member_ids ids ms) ≡ true
unfolding member_ids
member_ids-keeps t ids [] h = h
member_ids-keeps t ids (m ∷ ms) h =
    member_ids-keeps t (add_own (add_ids ids (read_coalesced_member_ids m)) m.id) ms (
      add_own-keeps t (add_ids ids (read_coalesced_member_ids m)) m.id
        (add_ids-keeps t ids (read_coalesced_member_ids m) h))

-- The message's id, where it has one that the source keeps, is in the list.
abbrev pub has_own : List Text → Option Text → Bool
has_own ids none = true
has_own ids (some t) = not (is_member_id t) || has_id t ids

add_id-room :
    (ids : List Text) (id : Text)
    → length ids < most_members
    → ((not (is_member_id id) || has_id id (add_id ids id)) ≡ true)
      × (length (add_id ids id) ≤ length ids + 1)
unfolding add_id
add_id-room ids id l =
    elim (Bool-cases (not (is_member_id id) || has_id id ids || leb most_members (length ids))) [
      | inl e ↦ rw (e, add_id) (ground (arith, e), omega arith)
      | inr e ↦
          rw (e, add_id)
            (
              ground (arith, has_id-append id ids (id ∷ []), text_eq_iff id id),
              omega (arith, length-append ids (id ∷ [])),
            )
    ]

own_kept :
    (ids : List Text) (id : Option Text) (rest : List UserMessage)
    → length ids < most_members
    → (has_own (member_ids (add_own ids id) rest) id ≡ true)
      × (length (add_own ids id) ≤ length ids + 1)
own_kept ids none rest l = (refl, omega arith)
own_kept ids (some t) rest l =
    (later (not (is_member_id t)) (add_id-room ids t l).0, (add_id-room ids t l).1)
  where
    later :
        (c : Bool)
        → (c || has_id t (add_id ids t)) ≡ true
        → (c || has_id t (member_ids (add_id ids t) rest)) ≡ true
    later true h = refl
    later false h = member_ids-keeps t (add_id ids t) rest h

settled_ids :
    (ids : List Text) (raw : List UserMessage)
    → length ids + length raw ≤ most_members
    → All (λ m. has_own (member_ids ids (map normalize_inbound_user_message raw)) m.id ≡ true) raw
unfolding member_ids normalize_inbound_user_message read_coalesced_member_ids add_ids
settled_ids ids [] l = tt
settled_ids ids (m ∷ raw) l =
    let own = own_kept ids m.id (map normalize_inbound_user_message raw) (omega arith) in
    (own.0, settled_ids (add_own ids m.id) raw (omega (arith, own.1, l)))

nothing_kept : (ids : List Text) → (ltb 0 (length ids)) ≡ false → ids ≡ []
nothing_kept [] h = refl
nothing_kept (x ∷ ids) h = absurd (ground arith)

read-list :
    (text : Text) (id : Option Text) (ids : List Text)
    → IsMembers ids
    → read_coalesced_member_ids (record {
      text = text;
      id = id;
      coalesced_ids = if ltb 0 (length ids) then some (map string ids) else none;
    })
      ≡ ids
unfolding read_coalesced_member_ids
read-list text id ids v = elim (Bool-cases (ltb 0 (length ids))) [
  | inl e ↦
      rw (e, read_coalesced_member_ids) (read_candidates_lem [] ids v.member (omega (arith, v.few)))
  | inr e ↦ rw (e, read_coalesced_member_ids) (sym (nothing_kept ids e))
]

length-add_id : (ids : List Text) (id : Text) → length ids ≤ length (add_id ids id)
unfolding add_id
length-add_id ids id = ground (arith, length-append ids (id ∷ []))

length-add_ids : (ids new : List Text) → length ids ≤ length (add_ids ids new)
unfolding add_ids
length-add_ids ids [] = omega arith
length-add_ids ids (id ∷ new) =
    omega (arith, length-add_id ids id, length-add_ids (add_id ids id) new)

length-add_own : (ids : List Text) (id : Option Text) → length ids ≤ length (add_own ids id)
length-add_own ids none = omega arith
length-add_own ids (some id) = length-add_id ids id

length-member_ids :
    (ids : List Text) (ms : List UserMessage) → length ids ≤ length (member_ids ids ms)
unfolding member_ids
length-member_ids ids [] = omega arith
length-member_ids ids (m ∷ ms) =
    let others = add_ids ids (read_coalesced_member_ids m) in
    omega (
      arith,
      length-add_ids ids (read_coalesced_member_ids m),
      length-add_own others m.id,
      length-member_ids (add_own others m.id) ms,
    )

room-or-full : (n : ℕ) → n ≤ most_members → (n < most_members) ⊎ (most_members ≤ n)
room-or-full n h = ground arith

-- The message's id is in the list, or the list is full.
abbrev pub IsNamed : List Text → UserMessage → Type 0
IsNamed ids m = (has_own ids m.id ≡ true) ⊎ (length ids ≡ most_members)

member_ids-IsNamed :
    (ids : List Text) (ms : List UserMessage) → IsMembers ids → All (IsNamed (member_ids ids ms)) ms
unfolding member_ids
member_ids-IsNamed ids [] v = tt
member_ids-IsNamed ids (m ∷ ms) v =
    let others = add_ids ids (read_coalesced_member_ids m) in
    let w : IsMembers others = add_ids-IsMembers ids (read_coalesced_member_ids m) v in
    let own : IsMembers (add_own others m.id) = add_own-IsMembers others m.id w in
    let final : IsMembers (member_ids (add_own others m.id) ms) =
      member_ids-IsMembers (add_own others m.id) ms own in
    (
      elim (room-or-full (length others) w.few) [
        | inl room ↦ inl ((own_kept others m.id ms room).0)
        | inr full ↦ inr (
            omega (
              arith,
              full,
              final.few,
              length-add_own others m.id,
              length-member_ids (add_own others m.id) ms,
            ))
      ],
      member_ids-IsNamed (add_own others m.id) ms own,
    )

-- Two or more messages merge into one, however many they are and whatever members they say they
-- have. It names, where it names any, valid ids, no more of them than the limit on a session's
-- messages; these are what the settle path reads back; and the valid id of each message is among
-- them, unless they are as many as the limit.
pub coalesce_bounded :
    (m n : UserMessage) (rest : List UserMessage)
    → (merged : UserMessage) × (ids : List Text) × (coalesce_user_messages (m ∷ n ∷ rest)
        ≡ some merged)
      × (merged.coalesced_ids ≡ (if ltb 0 (length ids) then some (map string ids) else none))
      × (read_coalesced_member_ids merged ≡ ids)
      × IsMembers ids
      × All (IsNamed ids) (m ∷ n ∷ rest)
unfolding coalesce_user_messages
coalesce_bounded m n rest =
    let all = m ∷ n ∷ rest in
    let ids = member_ids [] all in
    let v : IsMembers ids =
      member_ids-IsMembers [] all (record { member = tt; few = omega arith }) in
    (
      _,
      ids,
      refl,
      refl,
      read-list (join all) (last_id all) ids v,
      v,
      member_ids-IsNamed [] all (record { member = tt; few = omega arith }),
    )

-- No id is lost in a merge. Where two or more messages came through the normalization, and are no
-- more than the limit on a session's messages, they merge; the settle path reads valid ids of the
-- merged message, no more than the limit, and the valid id of each message is among them.
coalesce_keeps_ids :
    (m n : UserMessage) (rest : List UserMessage)
    → 2 + length rest ≤ most_members
    → (merged : UserMessage) × (coalesce_user_messages
          (map normalize_inbound_user_message (m ∷ n ∷ rest))
        ≡ some merged)
      × IsMembers (read_coalesced_member_ids merged)
      × All (λ m. has_own (read_coalesced_member_ids merged) m.id ≡ true) (m ∷ n ∷ rest)
unfolding coalesce_user_messages
coalesce_keeps_ids m n rest l =
    let raw = m ∷ n ∷ rest in
    let ids = member_ids [] (map normalize_inbound_user_message raw) in
    let v : IsMembers ids =
      member_ids-IsMembers [] (map normalize_inbound_user_message raw)
        (record { member = tt; few = omega arith }) in
    let e = sym (
      read-list (join (map normalize_inbound_user_message raw))
        (last_id (map normalize_inbound_user_message raw)) ids v) in
    (
      _,
      refl,
      subst IsMembers e v,
      subst (λ ids. All (λ m. has_own ids m.id ≡ true) raw) e
          (settled_ids [] raw (omega (arith, l))),
    )
