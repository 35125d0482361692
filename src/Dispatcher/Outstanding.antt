-- ===== src/Dispatcher/Outstanding.antt =====
-- inbound-queue.ts: what the dispatcher keeps in use, over any calls, and what a disposal leaves.
use openclaw_webchannel.Common.{
  ℕ, ◌≡◌, subst, inl, inr, Bool, true, false, ◌&&◌, Option, none, some, List, [], ◌∷◌, Text,
  text_Eq, arith, nat_Eq, lookup, Bool-cases, get_elem?,
}
use openclaw_webchannel.Retention.{BusyTurnLimits, empty, Reservation}
use openclaw_webchannel.Retention.Run.{empty-IsValid}
use openclaw_webchannel.Retention.InUse.{InUse}
use openclaw_webchannel.Dispatcher.{Dispatcher, or_new, session_of}
use openclaw_webchannel.Dispatcher.Progress.{run-IsLive, init-IsLive}
use openclaw_webchannel.Dispatcher.Holdings.{Holds}
use openclaw_webchannel.Dispatcher.Leaks.{IsTight, no_ids, commit-IsTight, rollback-IsTight}
use openclaw_webchannel.Dispatcher.Run.{
  Call, begins, clears, runs, settles, offers, commits, rolls_back, finishes, dispatches, disposes,
  spends, init, step, run,
}
use openclaw_webchannel.Dispatcher.Offers.{begin_batch-IsTight, offer-IsTight}
use openclaw_webchannel.Dispatcher.Releases.{
  none_held, run_turn-IsTight, clear_pending-IsTight, dispose-IsTight,
}
use openclaw_webchannel.Dispatcher.Finishes.{settle-IsTight, finish-IsTight, dispatch-IsTight}

-- The calls that bring no reservation of another: those of a client that lets the dispatcher
-- reserve, on a budget that no one else uses.
abbrev pub own : {M : Type 0} → Call M → Bool
own (offers lease m (some i)) = false
own (dispatches key m (some i)) = false
own (spends c) = false
own _ = true

abbrev pub all_own : {M : Type 0} → List (Call M) → Bool
all_own [] = true
all_own (c ∷ cs) = own c && all_own cs

module _ {M : Type 0} (coalesce : List M → Option M) (measure : M → Option ℕ)
    (session_token : Text → ℕ) where
  step-IsTight :
      (d : Dispatcher M) (c : Call M)
      → IsTight d
      → own c ≡ true
      → IsTight (step coalesce measure session_token d c)
  unfolding step
  step-IsTight d (begins key) v h = begin_batch-IsTight d key v
  step-IsTight d (clears key) v h = clear_pending-IsTight d key v
  step-IsTight d (runs key) v h = run_turn-IsTight d key v
  step-IsTight d (settles key) v h = settle-IsTight coalesce d key v
  step-IsTight d (offers lease m none) v h = offer-IsTight _ _ d lease m v
  step-IsTight d (offers lease m (some i)) v h = ground (arith, h)
  step-IsTight d (commits lease i) v h = commit-IsTight d lease i v
  step-IsTight d (rolls_back lease i) v h = rollback-IsTight d lease i v
  step-IsTight d (finishes lease) v h = finish-IsTight coalesce d lease v
  step-IsTight d (dispatches key m none) v h = dispatch-IsTight coalesce _ _ d key m v
  step-IsTight d (dispatches key m (some i)) v h = ground (arith, h)
  step-IsTight d disposes v h = dispose-IsTight d v
  step-IsTight d (spends c) v h = ground (arith, h)

  run-IsTight :
      (d : Dispatcher M) (cs : List (Call M))
      → IsTight d
      → all_own cs ≡ true
      → IsTight (run coalesce measure session_token d cs)
  unfolding run
  run-IsTight d [] v h = v
  run-IsTight d (c ∷ cs) v h =
      run-IsTight (step coalesce measure session_token d c) cs
        (step-IsTight d c v (ground (arith, h))) (ground (arith, h))

  init-IsTight : (l : BusyTurnLimits) → IsTight (init {M = M} (empty l))
  unfolding lookup
  init-IsTight l = record {
    valid = empty-IsValid l;
    covered = λ i u. ground (arith, u);
    fresh = λ key. no_ids M 0;
  }

  -- No reservation leaks. Whatever calls are made on a new dispatcher with a budget of its own, each
  -- reservation whose release no one has requested is that of an entry which a session still holds:
  -- in its queue, or not rolled back in one of its open leases.
  pub in_use_is_held :
      (l : BusyTurnLimits) (cs : List (Call M)) (i : ℕ)
      → all_own cs ≡ true
      → InUse (run coalesce measure session_token (init (empty l)) cs).budget i
      → (key : Text) × Holds
          (session_of (run coalesce measure session_token (init (empty l)) cs) key)
          i
  in_use_is_held l cs i h u = (run-IsTight (init (empty l)) cs (init-IsTight l) h).covered i u

  -- A disposal returns all that was taken: once a dispatcher with a budget of its own is disposed,
  -- whatever was called before and after, the release of every reservation has been requested.
  pub disposed_releases_all :
      (l : BusyTurnLimits) (cs : List (Call M)) (i : ℕ) (r : Reservation)
      → all_own cs ≡ true
      → (run coalesce measure session_token (init (empty l)) cs).disposed ≡ true
      → get_elem? (run coalesce measure session_token (init (empty l)) cs).budget.reservations i
        ≡ some r
      → r.release_requested ≡ true
  unfolding lookup
  disposed_releases_all l cs i r h off at = elim (Bool-cases r.release_requested) [
    | inl asked ↦ asked
    | inr unasked ↦
        let d = run coalesce measure session_token (init (empty l)) cs in
        let held = in_use_is_held l cs i h (r, (at, unasked)) in
        let none_left =
          (run-IsLive coalesce measure session_token (init (empty l)) cs
              (init-IsLive (empty l))).closed
            off in
        absurd (none_held M i (subst (λ ss. Holds (or_new (lookup held.0 ss)) i) none_left held.1))
  ]
