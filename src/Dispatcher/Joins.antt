-- ===== src/Dispatcher/Joins.antt =====
-- inbound-queue.ts: what `dispatch` brings to a queue is the message that it was given, if accepted.
use openclaw_webchannel.Common.{
  ◌&&◌, get_elem?, ℕ, suc, ◌≡◌, refl, sym, ap, subst, ◌∙◌, Bool, true, false, Option, none, some,
  List, [], ◌∷◌, Text, text_Eq, nat_Eq, lookup, insert, lookup-insert, agree_refl, maybe, maybe_lem,
  if_lem, if◌then◌else◌, arith,
}
use openclaw_webchannel.Retention.{
  try_reserve, transfer, RetentionOwner, RetentionLimitReason, Budget, Result, ok, throw,
  ReserveResult,
}
use openclaw_webchannel.Dispatcher.{
  EntryState, Lease, Session, Dispatcher, Offer, BatchLease, lease_of, disposed_lease, new_lease,
  put, put_lease, is_idle, find_lease, session_of, or_new, begin_batch, offer, offer_to,
  offer_supplied, offer_unsupplied, offer_moved, offer_reserved, commit, change_entry, commit_entry,
  release_supplied, store_offer, reject, checked_charge, is_foreign, release_handle, is_empty,
  is_empty,
}
use openclaw_webchannel.Dispatcher.Turns.{dispatch}
use openclaw_webchannel.Dispatcher.Place.{put_found}
use openclaw_webchannel.Dispatcher.Queue.{at}
use openclaw_webchannel.Dispatcher.Lines.{at-nil}
use openclaw_webchannel.Dispatcher.Moves.{committed_messages, after_joins, dispatch_joins}

-- The message of an offer, if it was accepted.
abbrev pub accepted_message : {M : Type 0} → M → Offer → List M
accepted_message m (Offer.accepted i) = m ∷ []
accepted_message m _ = []

and_false : (c : Bool) → (c && false) ≡ false
and_false true = refl
and_false false = refl

module _ {M : Type 0} where
  filled : (id : ℕ) (l : Lease M) (m : List (ℕ × Lease M)) → is_empty (insert id l m) ≡ false
  unfolding insert
  filled id l [] = refl
  filled id l ((j, k) ∷ m) = ground arith

  busy_lease : (s : Session M) (id : ℕ) (l : Lease M) → is_idle (put_lease s id l) ≡ false
  unfolding is_idle
  busy_lease s id l = rw (filled id l s.open_leases) (and_false _)

  found_lease :
      (d : Dispatcher M) (key : Text) (b : Budget) (s : Session M) (id : ℕ) (l : Lease M)
      → find_lease (session_of (put d key b (put_lease s id l)) key) id ≡ some l
  found_lease d key b s id l =
      let stored : lookup key (put d key b (put_lease s id l)).sessions ≡ some (put_lease s id l) =
        put_found d key b (put_lease s id l)
        ∙ ap (λ c. if c then none else some (put_lease s id l)) (busy_lease s id l) in
      ap (λ o. find_lease (or_new o) id) stored
      ∙ (lookup-insert id id l s.open_leases
          ∙ ap (λ c. if c then some l else lookup id s.open_leases) (agree_refl id))

  -- What an offer leaves in a new lease.
  abbrev Fits : M → Lease M × Offer → Type 0
  Fits m (l, Offer.accepted i) =
      (i ≡ 0)
      × (r : ℕ) × (l.entries
          ≡ record { message = m; reservation = r; state = EntryState.provisional } ∷ [])
  Fits m (l, answer) = l.entries ≡ []

  moved-Fits :
      (b : Budget) (m : M) (i : ℕ) (r : Result Budget) → Fits m (offer_moved b new_lease m i r).1
  moved-Fits b m i (ok b') = (refl, i, refl)
  moved-Fits b m i (throw e) = refl

  reserved-Fits :
      (b : Budget) (m : M) (r : Result (Budget × ReserveResult))
      → Fits m (offer_reserved b new_lease m r).1
  reserved-Fits b m (ok (b', ReserveResult.accepted i)) = (refl, i, refl)
  reserved-Fits b m (ok (b', ReserveResult.rejected reason)) = refl
  reserved-Fits b m (throw e) = refl

  offer_to-Fits :
      (token : ℕ) (measured : Option ℕ) (b : Budget) (m : M) (supplied : Option ℕ)
      → Fits m (offer_to token measured b new_lease m supplied).1
  unfolding offer_to offer_supplied offer_unsupplied
  offer_to-Fits token measured b m none =
      maybe_lem (λ (r : Budget × (Lease M × Offer)). Fits m r.1)
        (b, reject new_lease RetentionLimitReason.session_byte_count)
        (λ c. offer_reserved b new_lease m (try_reserve b token c RetentionOwner.pending))
        (checked_charge measured) (λ e. refl) (λ c e. reserved-Fits b m _)
  offer_to-Fits token measured b m (some i) =
      if_lem (λ (r : Budget × (Lease M × Offer)). Fits m r.1)
        (is_foreign token (get_elem? b.reservations i))
        (release_handle b i, reject new_lease RetentionLimitReason.session_message_count)
        (offer_moved b new_lease m i (transfer b i RetentionOwner.pending)) (λ e. refl)
        (λ e. moved-Fits b m i _)

module _ {M : Type 0} (coalesce : List M → Option M) where
  joins_none :
      (d : Dispatcher M) (key read : Text) (s : Session M) (id : ℕ) (b : Budget) (l : Lease M)
      → l.entries ≡ []
      → at key read (
          maybe []
            (λ k. committed_messages k.entries)
            (find_lease (session_of (put d key b (put_lease s id l)) key) id))
        ≡ at key read []
  joins_none d key read s id b l e =
      ap (λ o. at key read (maybe [] (λ k. committed_messages k.entries) o))
        (found_lease d key b s id l)
      ∙ ap (λ es. at key read (committed_messages es)) e

  committed_one :
      (l : Lease M) (i : ℕ) (m : M) (r : ℕ)
      → i ≡ 0
      → l.entries ≡ record { message = m; reservation = r; state = EntryState.provisional } ∷ []
      → committed_messages (change_entry l i commit_entry).entries ≡ m ∷ []
  committed_one l i m r z e =
      subst (λ j. committed_messages (change_entry l j commit_entry).entries ≡ m ∷ []) (sym z)
        (subst
          (λ es.
            committed_messages
              (change_entry (record { entries = es; tail_rejected = l.tail_rejected }) 0
                commit_entry).entries
            ≡ m ∷ [])
          (sym e) refl)

  -- The lease that `dispatch` has opened and offered to.
  joins_stored :
      (d : Dispatcher M) (key read : Text) (s : Session M) (id : ℕ) (b : Budget) (m : M)
      (l : Lease M) (answer : Offer) (supplied : Option ℕ)
      → Fits m (l, answer)
      → after_joins coalesce (put d key b (put_lease s id l)) (lease_of key id) answer supplied read
        ≡ at key read (accepted_message m answer)
  unfolding commit
  joins_stored d key read s id b m l (Offer.accepted i) supplied (z, r, e) =
      let d1 = put d key b (put_lease s id l) in
      let l1 = change_entry l i commit_entry in
      let joins : Dispatcher M → List M = λ x.
        at key read
          (maybe [] (λ k. committed_messages k.entries) (find_lease (session_of x key) id)) in
      ap
        (λ o. joins (
          maybe d1
            (λ k.
              put d1 key d1.budget
                (put_lease (session_of d1 key) id (change_entry k i commit_entry)))
            o))
        (found_lease d key b s id l)
      ∙ (ap (λ o. at key read (maybe [] (λ k. committed_messages k.entries) o))
            (found_lease d1 key d1.budget (session_of d1 key) id l1)
          ∙ ap (at key read) (committed_one l i m r z e))
  joins_stored d key read s id b m l (Offer.rejected reason) supplied e =
      joins_none d key read s id b l e
  joins_stored d key read s id b m l Offer.disposed supplied e = joins_none d key read s id b l e
  joins_stored d key read s id b m l (Offer.throws x) supplied e = sym (at-nil coalesce key read)

  -- After the offer to an opened lease, what its `finish` brings is what was accepted.
  abbrev Joined : Text → Text → M → Option ℕ → BatchLease → Dispatcher M × Offer → Type 0
  Joined key read m supplied lease (d, answer) =
      after_joins coalesce d lease answer supplied read ≡ at key read (accepted_message m answer)

  offered-Joined :
      (token : ℕ) (measured : Option ℕ) (d : Dispatcher M) (key : Text) (m : M)
      (supplied : Option ℕ) (read : Text) (id : ℕ)
      → find_lease (session_of d key) id ≡ some new_lease
      → Joined key read m supplied
          (lease_of key id)
          (offer token measured d (lease_of key id) m supplied)
  unfolding offer
  offered-Joined token measured d key m supplied read id found =
      let p = offer_to token measured d.budget new_lease m supplied in
      subst
        (λ o. Joined key read m supplied (lease_of key id) (
          maybe (record d { budget = release_supplied d.budget supplied }, Offer.disposed)
            (λ l.
              store_offer d key (session_of d key) id
                (offer_to token measured d.budget l m supplied))
            o))
        (sym found)
        (joins_stored d key read (session_of d key) id p.0 m p.1.0 p.1.1 supplied
          (offer_to-Fits token measured d.budget m supplied))

  -- The messages that `dispatch` brings to the queue of a session.
  pub dispatch_joins-accepted_message :
      (token : ℕ) (measured : Option ℕ) (d : Dispatcher M) (key : Text) (m : M)
      (supplied : Option ℕ) (read : Text)
      → dispatch_joins coalesce token measured d key m supplied read
        ≡ at key read (accepted_message m (dispatch coalesce token measured d key m supplied).1)
  unfolding dispatch begin_batch offer
  dispatch_joins-accepted_message token measured d key m supplied read =
      let s = session_of d key in
      let opened = record (put d key d.budget (put_lease s d.next_lease new_lease)) {
        next_lease = suc d.next_lease;
      } in
      if_lem
        (λ (o : Dispatcher M × BatchLease).
          Joined key read m supplied o.1 (offer token measured o.0 o.1 m supplied))
        d.disposed (d, disposed_lease) (opened, lease_of key d.next_lease)
        (λ off. sym (at-nil coalesce key read))
        (λ usable.
          offered-Joined token measured opened key m supplied read d.next_lease
            (found_lease d key d.budget s d.next_lease new_lease))
