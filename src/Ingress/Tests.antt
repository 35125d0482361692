-- ===== src/Ingress/Tests.antt =====
-- Runs of the filter and of the tombstones, and the theorems at inputs that meet their hypotheses.
use openclaw_webchannel.Common.{
  ◌+◌, sum_by, keep, ℕ, ◌≤◌, ◌≡◌, refl, Bool, true, false, Option, none, some, List, [], ◌∷◌, Text,
  codes, text_Eq, text_eq_iff, text_eq, ◌==◌, if◌then◌else◌, length, any, lookup, insert, erase,
  decimal_fuel, IsDistinct, ◌⊎◌, arith,
}
use openclaw_webchannel.Ingress.{
  IngressDedupeItem, ingress_dedupe_key, CancelledInboundFallbackTombstones, new_tombstones, scoped,
  has, delete, make_room, add, Answer, fresh, duplicate, failed, filter_from,
  filter_fresh_inbound_items,
}
use openclaw_webchannel.Ingress.Tombstones.{total}
use openclaw_webchannel.Ingress.Calls.{Call, adds, deletes, step, run, run_within}
use openclaw_webchannel.Ingress.Recent.{add_all, recent_kept}
use openclaw_webchannel.Ingress.Fresh.{Paid, count, run_flushes, at_most_once}
use openclaw_webchannel.Ingress.Delivery.{has_no_key, delivered, idless_kept}

program : Unit {0}
unfolding lookup insert erase text_eq decimal_fuel ingress_dedupe_key scoped has delete make_room
    add filter_from step run add_all run_flushes
program = tt

-- A dedupe store that remembers every key, and its answers.
abbrev seen : List Text → Text → Bool
seen keys key = any (λ k. k == key) keys

abbrev check : List Text → Text → List Text × Answer
check keys key = (key ∷ keys, if seen keys key then duplicate else fresh)

abbrev is_active : List Text → Bool
is_active keys = true

abbrev item : Option Text → IngressDedupeItem ℕ
item id = record { peer_id = codes "p"; id = id; rest = 0 }

abbrev twice : List (IngressDedupeItem ℕ)
twice = item (some (codes "a")) ∷ item none ∷ item (some (codes "a")) ∷ []

filter_test :
    (filter_fresh_inbound_items check is_active [] twice).1
    ≡ item (some (codes "a")) ∷ item none ∷ []
unfolding program
filter_test = refl

check_known : (w : List Text) (key : Text) → (check w key).1 ≡ duplicate → seen w key ≡ true
check_known w key h = ground (arith, h)

check_only :
    (w : List Text) (key other : Text)
    → seen (check w key).0 other ≡ true
    → (key ≡ other) ⊎ (seen w other ≡ true)
check_only w key other h = ground (arith, h, text_eq_iff key other)

-- A store with room for one mark, and the marks that it has dropped.
abbrev Slot : Type 0
Slot = Option Text × List Text

abbrev is_mark : Option Text → Text → Bool
is_mark none key = false
is_mark (some mark) key = mark == key

abbrev slot_seen : Slot → Text → Bool
slot_seen w key = is_mark w.0 key

abbrev occurrences : Text → List Text → ℕ
occurrences key dropped = sum_by (λ k. if k == key then 1 else 0) dropped

abbrev slot_lost : Slot → Text → ℕ
slot_lost w key = occurrences key w.1

abbrev dropped : Option Text → List Text → List Text
dropped none keys = keys
dropped (some mark) keys = mark ∷ keys

abbrev slot_check : Slot → Text → Slot × Answer
slot_check w key = if slot_seen w key then (w, duplicate) else ((some key, dropped w.0 w.1), fresh)

abbrev slot_active : Slot → Bool
slot_active w = true

slot_marks :
    (w : Slot) (key : Text)
    → (slot_check w key).1 ≡ fresh
    → slot_seen (slot_check w key).0 key ≡ true
slot_marks w key h = ground (arith, h, text_eq_iff key key)

slot_news : (w : Slot) (key : Text) → (slot_check w key).1 ≡ fresh → slot_seen w key ≡ false
slot_news w key h = ground (arith, h)

slot_grows :
    (w : Slot) (key other : Text) → slot_lost w other ≤ slot_lost (slot_check w key).0 other
slot_grows (none, keys) key other = ground arith
slot_grows (some mark, keys) key other = ground arith

slot_forgets :
    (w : Slot) (key other : Text) → Paid slot_seen slot_lost w other 0 (slot_check w key).0
slot_forgets (none, keys) key other = ground arith
slot_forgets (some mark, keys) key other =
    ground (arith, text_eq_iff mark key, text_eq_iff mark other)

slot_fails :
    (w : Slot) (key : Text)
    → (slot_check w key).1 ≡ failed
    → Paid slot_seen slot_lost w key 1 (slot_check w key).0
slot_fails w key h = absurd (ground (arith, h))

-- The store drops the mark of `a` for that of `b`, and `a` survives again.
abbrev mixed : List (IngressDedupeItem ℕ)
mixed = item (some (codes "a")) ∷ item (some (codes "b")) ∷ item (some (codes "a")) ∷ []

at_most_once_example :
    count
        (codes "p:a")
        (run_flushes slot_check slot_active slot_seen slot_lost
          (none, [])
          ((λ w. w, mixed) ∷ (λ w. w, mixed) ∷ [])).1
      + 0
    ≤ 1
      + slot_lost
          (run_flushes slot_check slot_active slot_seen slot_lost
            (none, [])
            ((λ w. w, mixed) ∷ (λ w. w, mixed) ∷ [])).0
          (codes "p:a")
at_most_once_example =
    at_most_once slot_check slot_active slot_seen slot_lost slot_marks slot_news slot_grows
      slot_forgets slot_fails (none, []) ((λ w. w, mixed) ∷ (λ w. w, mixed) ∷ []) (codes "p:a")
      (λ v k. omega arith, (λ v k. omega arith, tt))

always_active : (w : List Text) → is_active w ≡ true
always_active w = refl

delivered_example : 1 ≤ count (codes "p:a") (filter_fresh_inbound_items check is_active [] twice).1
unfolding program
delivered_example =
    delivered check is_active seen always_active check_known check_only [] twice (codes "p:a") refl
      refl

idless_kept_example :
    keep has_no_key (filter_fresh_inbound_items check is_active [] (item none ∷ twice)).1
    ≡ keep has_no_key (item none ∷ twice)
idless_kept_example = idless_kept check is_active always_active [] (item none ∷ twice)

abbrev calls : List Call
calls =
    adds (codes "k1") none
    ∷ adds (codes "k2") (some (codes "acc"))
    ∷ deletes (codes "k1") (some (codes "acc"))
    ∷ []

tombstone_test :
    (has (run length (new_tombstones 1 100) calls) (codes "k1") none ≡ false)
    × (has (run length (new_tombstones 1 100) calls) (codes "k2") (some (codes "acc")) ≡ true)
unfolding program
tombstone_test = (refl, refl)

abbrev two : CancelledInboundFallbackTombstones
two = new_tombstones 2 200

run_within_example :
    (length (run length two calls).keys ≤ 2)
    × IsDistinct (run length two calls).keys
    × ((run length two calls).bytes ≤ 200)
    × ((run length two calls).bytes ≡ total (run length two calls).keys)
run_within_example = run_within length 2 200 calls (omega arith)

recent_kept_example :
    has
      (add_all length
        (add length (run length two calls) (codes "k3") none)
        ((codes "k4", none) ∷ []))
      (codes "k3")
      none
    ≡ true
unfolding program
recent_kept_example =
    recent_kept length 2 200 calls (codes "k3") none ((codes "k4", none) ∷ []) (omega arith) refl
      (omega arith) (omega arith)
