-- ===== src/Dispatcher.antt =====
-- The per-session dispatcher that packages/plugin/src/inbound-queue.ts creates with a `coalesce`, as
-- the plugin does, over the budget of Retention. The clients' functions `coalesce` (nothing, where
-- it throws) and `measure` (nothing, where it throws or is no natural number) are parameters, like
-- the session's token; a reservation is its handle, a lease a number from a counter.
pub mod Turns
pub mod Run
pub mod Place
pub mod Holdings
pub mod Leaks
pub mod Offers
pub mod Releases
pub mod Finishes
pub mod Outstanding
pub mod Ends
mod Tests
pub mod Progress
pub mod Queue
pub mod Lines
pub mod Moves
pub mod Joins
pub mod Refine
use openclaw_webchannel.Common.{
  ℕ, suc, Bool, true, false, not, ◌&&◌, ◌||◌, Option, none, some, List, [], ◌∷◌, ◌++◌, map, Text,
  text_Eq, nat_Eq, leb, ◌==◌, if◌then◌else◌, maybe, length, get_elem?, set, lookup, insert, erase,
}
use openclaw_webchannel.Retention.{
  Budget, RetentionLimitReason, Error, ReserveResult, Result, ok, throw, max_safe_integer,
  try_reserve, transfer, request_release, session_message_count, session_byte_count, RetentionOwner,
  Reservation,
}
use openclaw_webchannel.Retention.Run.{after}

pub data EntryState : Type 0 where
  provisional committed rolled_back attached : EntryState

-- `RetainedEntry` with the state of `LeaseEntry`; the entry's id is not read again.
pub record Entry (M : Type 0) : Type 0 where
  pub message : M
  pub reservation : ℕ
  pub state : EntryState

-- A lease is finished as soon as it is none of its session's open ones.
pub record Lease (M : Type 0) : Type 0 where
  pub entries : List (Entry M)
  pub tail_rejected : Option RetentionLimitReason

-- The promise `running`: its microtask waits to call the handler, or has run.
pub data Turn (M : Type 0) : Type 0 where
  queued : M → Turn M
  handling : Turn M

pub record Session (M : Type 0) : Type 0 where
  pub running : Option (Turn M)
  pub pending : List (Entry M)
  pub open_leases : List (ℕ × Lease M)
  pub ready_to_drain : Bool

-- `orphans` are the microtasks of turns whose session `dispose` has dropped from the map.
pub record Dispatcher (M : Type 0) : Type 0 where
  pub budget : Budget
  pub sessions : List (Text × Session M)
  pub orphans : List (Text × M)
  pub disposed : Bool
  pub next_lease : ℕ

pub data Offer : Type 0 where
  accepted : ℕ → Offer
  rejected : RetentionLimitReason → Offer
  disposed : Offer
  throws : Error → Offer

-- `disposedLease`, or a lease of a session.
pub data BatchLease : Type 0 where
  disposed_lease : BatchLease
  lease_of : Text → ℕ → BatchLease

abbrev pub new_session : {M : Type 0} → Session M
new_session = record { running = none; pending = []; open_leases = []; ready_to_drain = false }

abbrev pub new_lease : {M : Type 0} → Lease M
new_lease = record { entries = []; tail_rejected = none }

abbrev pub is_empty : {A : Type 0} → List A → Bool
is_empty [] = true
is_empty (x ∷ xs) = false

abbrev pub is_some : {A : Type 0} → Option A → Bool
is_some none = false
is_some (some a) = true

abbrev pub is_rolled_back : EntryState → Bool
is_rolled_back rolled_back = true
is_rolled_back _ = false

-- `entry.reservation.requestRelease()`.
unfoldable pub release_handle : Budget → ℕ → Budget
release_handle b i = after b (request_release b i)

-- `supplied?.requestRelease()`.
abbrev pub release_supplied : Budget → Option ℕ → Budget
release_supplied b none = b
release_supplied b (some i) = release_handle b i

abbrev pub is_foreign : ℕ → Option Reservation → Bool
is_foreign token none = true
is_foreign token (some r) = r.released || not (r.token == token)

-- `checkedCharge` on what `measure` gives.
unfoldable pub checked_charge : Option ℕ → Option ℕ
checked_charge none = none
checked_charge (some c) = if leb c max_safe_integer then some c else none

module _ {M : Type 0} where
  unfoldable pub release_all : Budget → List (Entry M) → Budget
  release_all b [] = b
  release_all b (e ∷ es) = release_all (release_handle b e.reservation) es

  abbrev pub messages : List (Entry M) → List M
  messages es = map (λ e. e.message) es

  abbrev pub or_new : Option (Session M) → Session M
  or_new none = new_session
  or_new (some s) = s

  abbrev pub session_of : Dispatcher M → Text → Session M
  session_of d key = or_new (lookup key d.sessions)

  unfoldable pub is_idle : Session M → Bool
  is_idle s = not (is_some s.running) && is_empty s.pending && is_empty s.open_leases

  -- A changed state in its session's place, with the `maybeForget` that ends the change.
  unfoldable pub put : Dispatcher M → Text → Budget → Session M → Dispatcher M
  put d key b s = record d {
    budget = b;
    sessions = if is_idle s then erase key d.sessions else insert key s d.sessions;
  }

  abbrev pub put_pair : Dispatcher M → Text → Budget × Session M → Dispatcher M
  put_pair d key p = put d key p.0 p.1

  unfoldable pub begin_batch : Dispatcher M → Text → Dispatcher M × BatchLease
  begin_batch d key =
      if d.disposed
      then (d, disposed_lease)
      else let s = session_of d key in
        let s' = record s { open_leases = insert d.next_lease new_lease s.open_leases } in
        (
          record (put d key d.budget s') { next_lease = suc d.next_lease },
          lease_of key d.next_lease,
        )

  abbrev pub reject : Lease M → RetentionLimitReason → Lease M × Offer
  reject l reason = (record l { tail_rejected = some reason }, rejected reason)

  abbrev pub push : Lease M → M → ℕ → Lease M × Offer
  push l m i = (
    record l {
      entries = l.entries ++ record { message = m; reservation = i; state = provisional } ∷ [];
    },
    accepted (length l.entries),
  )

  abbrev pub offer_moved : Budget → Lease M → M → ℕ → Result Budget → Budget × (Lease M × Offer)
  offer_moved b l m i (throw e) = (b, (l, throws e))
  offer_moved b l m i (ok b') = (b', push l m i)

  -- `offer` with a reservation, on a lease that takes one more.
  unfoldable pub offer_supplied : ℕ → Budget → Lease M → M → ℕ → Budget × (Lease M × Offer)
  offer_supplied token b l m i =
      if is_foreign token (get_elem? b.reservations i)
      then (release_handle b i, reject l session_message_count)
      else offer_moved b l m i (transfer b i RetentionOwner.pending)

  abbrev pub offer_reserved :
      Budget → Lease M → M → Result (Budget × ReserveResult) → Budget × (Lease M × Offer)
  offer_reserved b l m (throw e) = (b, (l, throws e))
  offer_reserved b l m (ok (b', ReserveResult.accepted i)) = (b', push l m i)
  offer_reserved b l m (ok (b', ReserveResult.rejected reason)) = (b', reject l reason)

  unfoldable pub offer_unsupplied : ℕ → Option ℕ → Budget → Lease M → M → Budget × (Lease M × Offer)
  offer_unsupplied token measured b l m =
      maybe (b, reject l session_byte_count)
        (λ c. offer_reserved b l m (try_reserve b token c RetentionOwner.pending))
        (checked_charge measured)

  unfoldable pub offer_to :
      ℕ → Option ℕ → Budget → Lease M → M → Option ℕ → Budget × (Lease M × Offer)
  unfolding offer_supplied offer_unsupplied
  offer_to token measured b l m supplied =
      maybe (maybe (offer_unsupplied token measured b l m) (offer_supplied token b l m) supplied)
        (λ reason. (b, (l, rejected reason))) l.tail_rejected

  abbrev pub put_lease : Session M → ℕ → Lease M → Session M
  put_lease s id l = record s { open_leases = insert id l s.open_leases }

  abbrev pub store_offer :
      Dispatcher M → Text → Session M → ℕ → Budget × (Lease M × Offer) → Dispatcher M × Offer
  store_offer d key s id (b, (l, answer)) = (put d key b (put_lease s id l), answer)

  abbrev pub find_lease : Session M → ℕ → Option (Lease M)
  find_lease s id = lookup id s.open_leases

  -- `offer`, with the token of the session and what `measure` gives for the message.
  unfoldable pub offer :
      ℕ → Option ℕ → Dispatcher M → BatchLease → M → Option ℕ → Dispatcher M × Offer
  unfolding offer_to
  offer token measured d disposed_lease m supplied = (d, Offer.disposed)
  offer token measured d (lease_of key id) m supplied =
      maybe (record d { budget = release_supplied d.budget supplied }, Offer.disposed)
        (λ l.
          store_offer d key (session_of d key) id (offer_to token measured d.budget l m supplied))
        (find_lease (session_of d key) id)

  abbrev pub mark : Entry M → EntryState → Entry M
  mark e st = record e { state = st }

  -- `commit` on an entry of an open lease.
  abbrev pub commit_entry : Entry M → Entry M
  commit_entry e = elim e.state [
    | provisional ↦ mark e committed
    | committed ↦ e
    | rolled_back ↦ e
    | attached ↦ e
  ]

  abbrev pub change_entry : Lease M → ℕ → (Entry M → Entry M) → Lease M
  change_entry l i f =
      maybe l (λ e. record l { entries = set l.entries i (f e) }) (get_elem? l.entries i)

  unfoldable pub commit : Dispatcher M → BatchLease → ℕ → Dispatcher M
  commit d disposed_lease i = d
  commit d (lease_of key id) i =
      maybe d
        (λ l. put d key d.budget (put_lease (session_of d key) id (change_entry l i commit_entry)))
        (find_lease (session_of d key) id)

  abbrev pub is_live : Entry M → Bool
  is_live e = elim e.state [
    | provisional ↦ true
    | committed ↦ true
    | rolled_back ↦ false
    | attached ↦ false
  ]

  abbrev pub drop_entry : Dispatcher M → Text → ℕ → Lease M → ℕ → Entry M → Dispatcher M
  drop_entry d key id l i e =
      if is_live e
      then put d key (release_handle d.budget e.reservation) (
          put_lease (session_of d key) id
            (record l { entries = set l.entries i (mark e rolled_back) }))
      else d

  -- On a finished lease neither `commit` nor `rollback` finds an entry that it changes.
  unfoldable pub rollback : Dispatcher M → BatchLease → ℕ → Dispatcher M
  rollback d disposed_lease i = d
  rollback d (lease_of key id) i =
      maybe d (λ l. maybe d (drop_entry d key id l i) (get_elem? l.entries i))
        (find_lease (session_of d key) id)
