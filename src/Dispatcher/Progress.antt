-- ===== src/Dispatcher/Progress.antt =====
-- inbound-queue.ts: what a session of the dispatcher waits for.
use openclaw_webchannel.Common.{
  erase, ℕ, ◌≡◌, refl, inl, inr, Bool, true, false, not, ◌&&◌, ◌||◌, Option, none, some, List, [],
  ◌∷◌, Text, text_Eq, nat_Eq, Bool-cases, ap, sym, ◌∙◌, arith, lookup, Option-cases, insert,
  get_elem?, maybe_lem, if_lem, keep,
}
use openclaw_webchannel.Retention.{Budget}
use openclaw_webchannel.Dispatcher.{
  Lease, put_lease, new_lease, is_live, release_all, session_of, find_lease, or_new, Session,
  Dispatcher, BatchLease, lease_of, Turn, Offer, queued, handling, disposed_lease, is_empty,
  is_some, put, begin_batch, offer, commit, rollback,
}
use openclaw_webchannel.Dispatcher.Turns.{
  clear_pending, dispose, run_turn, settle, finish, dispatch, start_turn, drain, settle_turn,
  finish_drain, call_handler, run_orphan, after_offer, finish_unless_thrown, without_lease,
  is_provisional,
}
use openclaw_webchannel.Dispatcher.Place.{lookup-put}
use openclaw_webchannel.Dispatcher.Run.{
  Call, begins, clears, runs, settles, offers, commits, rolls_back, finishes, dispatches, disposes,
  spends, init, step, run,
}

-- Waiting work waits for a turn to settle or for a lease to finish.
abbrev pub Moves : {M : Type 0} → Session M → Type 0
Moves s = is_empty s.pending ≡ false → (is_some s.running || not (is_empty s.open_leases)) ≡ true

pub record IsLive {M : Type 0} (d : Dispatcher M) : Type 0 where
  pub moving : (key : Text) (s : Session M) → lookup key d.sessions ≡ some s → Moves s
  pub closed : d.disposed ≡ true → d.sessions ≡ []
  pub alone : d.disposed ≡ false → d.orphans ≡ []

abbrev LeavesLive : {M B : Type 0} → Dispatcher M × B → Type 0
LeavesLive p = IsLive p.0

abbrev DrainMoves : {M : Type 0} → Budget × Session M → Type 0
DrainMoves p = Moves p.1

module _ {M : Type 0} where
  pub put-IsLive :
      (d : Dispatcher M) (key : Text) (b : Budget) (s : Session M)
      → IsLive d
      → d.disposed ≡ false
      → Moves s
      → IsLive (put d key b s)
  unfolding put
  put-IsLive d key b s v usable h = record {
    moving = λ read t found. ground (arith, lookup-put d key read b s, v.moving read t, h);
    closed = λ e. ground (arith, e, usable);
    alone = v.alone;
  }

  pub found_usable :
      (d : Dispatcher M) (key : Text) (s : Session M)
      → IsLive d
      → lookup key d.sessions ≡ some s
      → d.disposed ≡ false
  unfolding lookup
  found_usable d key s v found = elim (Bool-cases d.disposed) [
    | inl e ↦ cc (found, ap (lookup key) (v.closed e))
    | inr e ↦ e
  ]

  -- An open lease is one of a session in its place, of a dispatcher that is not disposed.
  pub lease_session :
      (d : Dispatcher M) (key : Text) (id : ℕ) (l : Lease M)
      → IsLive d
      → find_lease (session_of d key) id ≡ some l
      → (d.disposed ≡ false) × (lookup key d.sessions ≡ some (session_of d key))
  unfolding lookup
  lease_session d key id l v found = elim (Option-cases (lookup key d.sessions)) [
    | inl e ↦ cc (found, ap or_new e)
    | inr (s, e) ↦ (found_usable d key s v e, e ∙ ap some (sym (ap or_new e)))
  ]

  insert-Moves : (s : Session M) (id : ℕ) (l : Lease M) → Moves (put_lease s id l)
  unfolding insert
  insert-Moves s id l =
      elim s.open_leases
        as (λ m.
          is_empty s.pending ≡ false
          → (is_some s.running || not (is_empty (insert id l m))) ≡ true) [
            | [] ↦ λ e. ground arith
            | (j, k) ∷ rest ↦ λ e. ground arith
          ]

  pub budget-IsLive : (d : Dispatcher M) (b : Budget) → IsLive d → IsLive (record d { budget = b })
  budget-IsLive d b v = record { moving = v.moving; closed = v.closed; alone = v.alone }

  put_lease-IsLive :
      (d : Dispatcher M) (key : Text) (id : ℕ) (l l' : Lease M) (b : Budget)
      → IsLive d
      → find_lease (session_of d key) id ≡ some l
      → IsLive (put d key b (put_lease (session_of d key) id l'))
  put_lease-IsLive d key id l l' b v found =
      put-IsLive d key b _ v (lease_session d key id l v found).0
        (insert-Moves (session_of d key) id l')

  pub begin_batch-IsLive : (d : Dispatcher M) (key : Text) → IsLive d → IsLive (begin_batch d key).0
  unfolding begin_batch
  begin_batch-IsLive d key v =
      if_lem LeavesLive d.disposed _ _ (λ e. v)
        λ e.
          let s = session_of d key in
          let moves = insert-Moves s d.next_lease new_lease in
          let w = put-IsLive d key d.budget (put_lease s d.next_lease new_lease) v e moves in
          record { moving = w.moving; closed = w.closed; alone = w.alone }

  pub commit-IsLive :
      (d : Dispatcher M) (lease : BatchLease) (i : ℕ) → IsLive d → IsLive (commit d lease i)
  unfolding commit
  commit-IsLive d disposed_lease i v = v
  commit-IsLive d (lease_of key id) i v =
      maybe_lem IsLive d _ _ (λ e. v) λ l e. put_lease-IsLive d key id l _ d.budget v e

  rollback-IsLive :
      (d : Dispatcher M) (lease : BatchLease) (i : ℕ) → IsLive d → IsLive (rollback d lease i)
  unfolding rollback
  rollback-IsLive d disposed_lease i v = v
  rollback-IsLive d (lease_of key id) i v =
      maybe_lem IsLive d _ _ (λ e. v)
        λ l e.
          maybe_lem IsLive d _ (get_elem? l.entries i) (λ none_there. v)
            λ entry there.
              if_lem IsLive (is_live entry) _ _ (λ alive. put_lease-IsLive d key id l _ _ v e)
                (λ dead. v)

  pub offer-IsLive :
      (token : ℕ) (measured : Option ℕ) (d : Dispatcher M) (lease : BatchLease) (m : M)
      (supplied : Option ℕ)
      → IsLive d
      → IsLive (offer token measured d lease m supplied).0
  unfolding offer
  offer-IsLive token measured d disposed_lease m supplied v = v
  offer-IsLive token measured d (lease_of key id) m supplied v =
      maybe_lem LeavesLive _ _ _ (λ e. budget-IsLive d _ v)
        λ l e. put_lease-IsLive d key id l _ _ v e

  clear_pending-IsLive : (d : Dispatcher M) (key : Text) → IsLive d → IsLive (clear_pending d key).0
  unfolding clear_pending
  clear_pending-IsLive d key v =
      maybe_lem LeavesLive _ _ _ (λ e. v)
        λ s e. put-IsLive d key _ _ v (found_usable d key s v e) (λ h. ground arith)

  dispose-IsLive : (d : Dispatcher M) → IsLive d → IsLive (dispose d).0
  unfolding dispose lookup
  dispose-IsLive d v =
      if_lem LeavesLive d.disposed _ _ (λ e. v)
        λ e. record {
          moving = λ read t found. ground arith;
          closed = λ h. refl;
          alone = λ h. absurd (ground (arith, h));
        }

  call_handler-IsLive :
      (d : Dispatcher M) (key : Text) (s : Session M) (turn : Option (Turn M))
      → IsLive d
      → d.disposed ≡ false
      → IsLive (call_handler d key s turn).0
  call_handler-IsLive d key s none v usable = v
  call_handler-IsLive d key s (some handling) v usable = v
  call_handler-IsLive d key s (some (queued m)) v usable =
      put-IsLive d key d.budget _ v usable (λ h. refl)

  run_orphan-IsLive :
      (d : Dispatcher M) (key : Text) (o : Option M) → IsLive d → IsLive (run_orphan d key o).0
  unfolding erase
  run_orphan-IsLive d key none v = v
  run_orphan-IsLive d key (some m) v = record {
    moving = v.moving;
    closed = v.closed;
    alone = λ e. ap (erase key) (v.alone e);
  }

  run_turn-IsLive : (d : Dispatcher M) (key : Text) → IsLive d → IsLive (run_turn d key).0
  unfolding run_turn
  run_turn-IsLive d key v =
      maybe_lem LeavesLive _ _ _ (λ e. run_orphan-IsLive d key (lookup key d.orphans) v)
        λ s e. call_handler-IsLive d key s s.running v (found_usable d key s v e)

  pub init-IsLive : (b : Budget) → IsLive (init {M = M} b)
  unfolding lookup
  init-IsLive b = record {
    moving = λ key s found. ground arith;
    closed = λ e. refl;
    alone = λ e. refl;
  }

module _ {M : Type 0} (coalesce : List M → Option M) where
  pub drain-Moves : (off : Bool) (b : Budget) (s : Session M) → Moves (drain coalesce off b s).1
  unfolding drain start_turn
  drain-Moves off b s = ground arith

  settle_turn-IsLive :
      (d : Dispatcher M) (key : Text) (s : Session M) (turn : Option (Turn M))
      → IsLive d
      → d.disposed ≡ false
      → IsLive (settle_turn coalesce d key s turn)
  settle_turn-IsLive d key s none v usable = v
  settle_turn-IsLive d key s (some (queued m)) v usable = v
  settle_turn-IsLive d key s (some handling) v usable = put-IsLive d key _ _ v usable (
      if_lem DrainMoves d.disposed _ _ (λ e. λ h. ground arith)
        λ e.
          if_lem DrainMoves (not (is_empty s.open_leases)) _ _ (λ open_one h. ground arith)
            λ none_open. drain-Moves d.disposed d.budget _)

  settle-IsLive : (d : Dispatcher M) (key : Text) → IsLive d → IsLive (settle coalesce d key)
  unfolding settle
  settle-IsLive d key v =
      maybe_lem IsLive d _ _ (λ e. v)
        λ s e. settle_turn-IsLive d key s s.running v (found_usable d key s v e)

  finish_drain-Moves :
      (off : Bool) (b : Budget) (s : Session M) → Moves (finish_drain coalesce off b s).1
  finish_drain-Moves off b s =
      if_lem DrainMoves (not (is_some s.running) && is_empty s.open_leases) _ _
        (λ e. drain-Moves off b s)
        λ e.
          if_lem DrainMoves (s.ready_to_drain && is_empty s.open_leases) _ _
            (λ f. drain-Moves off b s) (λ f h. ground arith)

  finish-IsLive :
      (d : Dispatcher M) (lease : BatchLease) → IsLive d → IsLive (finish coalesce d lease)
  unfolding finish
  finish-IsLive d disposed_lease v = v
  finish-IsLive d (lease_of key id) v =
      maybe_lem IsLive d _ _ (λ e. v)
        λ l e.
          let s = without_lease (session_of d key) id l in
          put-IsLive d key _ _ v (lease_session d key id l v e).0
            (finish_drain-Moves d.disposed (release_all d.budget (keep is_provisional l.entries)) s)

  after_offer-IsLive :
      (d : Dispatcher M) (lease : BatchLease) (answer : Offer) (supplied : Option ℕ)
      → IsLive d
      → IsLive (
          finish_unless_thrown coalesce (after_offer coalesce d lease answer supplied) lease answer)
  after_offer-IsLive d lease (Offer.accepted i) supplied v =
      finish-IsLive _ lease (commit-IsLive d lease i v)
  after_offer-IsLive d lease (Offer.rejected reason) supplied v =
      finish-IsLive _ lease (budget-IsLive d _ v)
  after_offer-IsLive d lease Offer.disposed supplied v = finish-IsLive _ lease (budget-IsLive d _ v)
  after_offer-IsLive d lease (Offer.throws e) supplied v = v

  dispatch-IsLive :
      (token : ℕ) (measured : Option ℕ) (d : Dispatcher M) (key : Text) (m : M)
      (supplied : Option ℕ)
      → IsLive d
      → IsLive (dispatch coalesce token measured d key m supplied).0
  unfolding dispatch
  dispatch-IsLive token measured d key m supplied v =
      after_offer-IsLive _ _ _ supplied
        (offer-IsLive token measured _ _ m supplied (begin_batch-IsLive d key v))

module _ {M : Type 0} (coalesce : List M → Option M) (measure : M → Option ℕ)
    (session_token : Text → ℕ) where
  pub step-IsLive :
      (d : Dispatcher M) (c : Call M) → IsLive d → IsLive (step coalesce measure session_token d c)
  unfolding step
  step-IsLive d (begins key) v = begin_batch-IsLive d key v
  step-IsLive d (clears key) v = clear_pending-IsLive d key v
  step-IsLive d (runs key) v = run_turn-IsLive d key v
  step-IsLive d (settles key) v = settle-IsLive coalesce d key v
  step-IsLive d (offers lease m supplied) v = offer-IsLive _ _ d lease m supplied v
  step-IsLive d (commits lease i) v = commit-IsLive d lease i v
  step-IsLive d (rolls_back lease i) v = rollback-IsLive d lease i v
  step-IsLive d (finishes lease) v = finish-IsLive coalesce d lease v
  step-IsLive d (dispatches key m supplied) v = dispatch-IsLive coalesce _ _ d key m supplied v
  step-IsLive d disposes v = dispose-IsLive d v
  step-IsLive d (spends c) v = budget-IsLive d _ v

  pub run-IsLive :
      (d : Dispatcher M) (cs : List (Call M))
      → IsLive d
      → IsLive (run coalesce measure session_token d cs)
  unfolding run
  run-IsLive d [] v = v
  run-IsLive d (c ∷ cs) v =
      run-IsLive (step coalesce measure session_token d c) cs (step-IsLive d c v)

  -- Whatever calls are made on a new dispatcher, the messages queued in a session always wait for
  -- something that ends: a turn of the session is running, or one of its leases is open.
  pub queued_work_waits :
      (b : Budget) (cs : List (Call M)) (key : Text) (s : Session M)
      → lookup key (run coalesce measure session_token (init b) cs).sessions ≡ some s
      → is_empty s.pending ≡ false
      → (is_some s.running || not (is_empty s.open_leases)) ≡ true
  queued_work_waits b cs key s = (run-IsLive (init b) cs (init-IsLive b)).moving key s
