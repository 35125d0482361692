-- ===== src/Dispatcher/Finishes.antt =====
-- inbound-queue.ts: the reservations in use, when a turn or a lease ends.
use openclaw_webchannel.Common.{
  ℕ, ◌≡◌, sym, ap, ◌∙◌, Bool, Option, none, some, List, Text, text_Eq, arith, nat_Eq, lookup,
  maybe_lem, keep, lookup-erase,
}
use openclaw_webchannel.Retention.{Budget}
use openclaw_webchannel.Dispatcher.{
  Session, Dispatcher, Turn, queued, handling, Offer, BatchLease, lease_of, disposed_lease, is_some,
  session_of, release_all,
}
use openclaw_webchannel.Dispatcher.Turns.{
  settle, settle_turn, finish, finish_drain, dispatch, is_provisional, without_lease,
  settled_session, drain, start_turn, after_offer, finish_unless_thrown,
}
use openclaw_webchannel.Dispatcher.Holdings.{settled-Passes, finish-Passes}
use openclaw_webchannel.Dispatcher.Leaks.{IsTight, Passes-Keeps, put-IsTight, commit-IsTight}
use openclaw_webchannel.Dispatcher.Offers.{begin_batch-IsTight, offer-IsTight}
use openclaw_webchannel.Dispatcher.Releases.{found-IsTight}

module _ {M : Type 0} (coalesce : List M → Option M) where
  pub drain_leases :
      (off : Bool) (b : Budget) (s : Session M)
      → (drain coalesce off b s).1.open_leases ≡ s.open_leases
  unfolding drain start_turn
  drain_leases off b s = ground arith

  pub settled_leases :
      (off : Bool) (b : Budget) (s : Session M)
      → (settled_session coalesce off b s).1.open_leases ≡ s.open_leases
  settled_leases off b s = ground (arith, drain_leases off b (record s { running = none }))

  pub settle_turn-IsTight :
      (d : Dispatcher M) (key : Text) (s : Session M) (turn : Option (Turn M))
      → IsTight d
      → lookup key d.sessions ≡ some s
      → IsTight (settle_turn coalesce d key s turn)
  settle_turn-IsTight d key s none v found = v
  settle_turn-IsTight d key s (some (queued m)) v found = v
  settle_turn-IsTight d key s (some handling) v found =
      let p = settled_session coalesce d.disposed d.budget s in
      found-IsTight d key s p.0 p.1 v found (settled-Passes coalesce d.disposed d.budget s v.valid)
        (λ h id there.
          h id
            (ap (λ m. is_some (lookup id m)) (sym (settled_leases d.disposed d.budget s)) ∙ there))

  pub settle-IsTight : (d : Dispatcher M) (key : Text) → IsTight d → IsTight (settle coalesce d key)
  unfolding settle
  settle-IsTight d key v =
      maybe_lem IsTight d _ _ (λ e. v) λ s found. settle_turn-IsTight d key s s.running v found

  pub finish_leases :
      (off : Bool) (b : Budget) (s : Session M)
      → (finish_drain coalesce off b s).1.open_leases ≡ s.open_leases
  finish_leases off b s = ground (arith, drain_leases off b s)

  pub finish-IsTight :
      (d : Dispatcher M) (lease : BatchLease) → IsTight d → IsTight (finish coalesce d lease)
  unfolding finish
  finish-IsTight d disposed_lease v = v
  finish-IsTight d (lease_of key id) v =
      maybe_lem IsTight d _ _ (λ e. v)
        λ l found.
          let s = session_of d key in
          let b = release_all d.budget (keep is_provisional l.entries) in
          let p = finish_drain coalesce d.disposed b (without_lease s id l) in
          put-IsTight d key p.0 p.1 v (
            Passes-Keeps d s p.0 p.1
              (finish-Passes coalesce d.disposed d.budget s id l v.valid found)
              λ j there. v.fresh key j (
                ground (
                  arith,
                  ap (λ m. is_some (lookup j m))
                      (finish_leases d.disposed b (without_lease s id l)),
                  lookup-erase id j s.open_leases,
                  there,
                )))

  pub after_offer-IsTight :
      (d : Dispatcher M) (lease : BatchLease) (answer : Offer)
      → IsTight d
      → IsTight
          (finish_unless_thrown coalesce (after_offer coalesce d lease answer none) lease answer)
  after_offer-IsTight d lease (Offer.accepted i) v =
      finish-IsTight _ lease (commit-IsTight d lease i v)
  after_offer-IsTight d lease (Offer.rejected reason) v = finish-IsTight d lease v
  after_offer-IsTight d lease Offer.disposed v = finish-IsTight d lease v
  after_offer-IsTight d lease (Offer.throws e) v = v

  pub dispatch-IsTight :
      (token : ℕ) (measured : Option ℕ) (d : Dispatcher M) (key : Text) (m : M)
      → IsTight d
      → IsTight (dispatch coalesce token measured d key m none).0
  unfolding dispatch
  dispatch-IsTight token measured d key m v =
      after_offer-IsTight _ _ _ (offer-IsTight token measured _ _ m (begin_batch-IsTight d key v))
