-- ===== src/Dispatcher/Run.antt =====
-- inbound-queue.ts: any sequence of calls on a dispatcher, with the steps of its turns and the calls
-- that other code makes on the shared budget between them.
use openclaw_webchannel.Common.{ℕ, Option, List, [], ◌∷◌, false, Text}
use openclaw_webchannel.Retention.{Budget}
use openclaw_webchannel.Retention.Run.{after}
use openclaw_webchannel.Retention.Run
use openclaw_webchannel.Dispatcher.{
  Dispatcher, BatchLease, lease_of, disposed_lease, begin_batch, offer, commit, rollback,
}
use openclaw_webchannel.Dispatcher.Turns.{
  clear_pending, dispose, run_turn, settle, finish, dispatch,
}

pub data Call (M : Type 0) : Type 0 where
  begins clears runs settles : Text → Call M
  offers : BatchLease → M → Option ℕ → Call M
  commits rolls_back : BatchLease → ℕ → Call M
  finishes : BatchLease → Call M
  dispatches : Text → M → Option ℕ → Call M
  disposes : Call M
  spends : Run.Call → Call M

abbrev pub init : {M : Type 0} → Budget → Dispatcher M
init b = record { budget = b; sessions = []; orphans = []; disposed = false; next_lease = 0 }

abbrev pub key_of : BatchLease → Text
key_of disposed_lease = []
key_of (lease_of key id) = key

module _ {M : Type 0} (coalesce : List M → Option M) (measure : M → Option ℕ)
    (session_token : Text → ℕ) where
  unfoldable pub step : Dispatcher M → Call M → Dispatcher M
  step d (begins key) = (begin_batch d key).0
  step d (clears key) = (clear_pending d key).0
  step d (runs key) = (run_turn d key).0
  step d (settles key) = settle coalesce d key
  step d (offers lease m supplied) =
      (offer (session_token (key_of lease)) (measure m) d lease m supplied).0
  step d (commits lease i) = commit d lease i
  step d (rolls_back lease i) = rollback d lease i
  step d (finishes lease) = finish coalesce d lease
  step d (dispatches key m supplied) =
      (dispatch coalesce (session_token key) (measure m) d key m supplied).0
  step d disposes = (dispose d).0
  step d (spends c) = record d { budget = after d.budget (Run.step d.budget c) }

  unfoldable pub run : Dispatcher M → List (Call M) → Dispatcher M
  run d [] = d
  run d (c ∷ cs) = run (step d c) cs
