-- ===== src/Dispatcher/Turns.antt =====
-- inbound-queue.ts: the dispatcher's turns. The handler's call and the end of its promise are steps
-- of the model, `run_turn` and `settle`; a call of the handler is a result of `run_turn`.
use openclaw_webchannel.Common.{
  ℕ, Bool, true, false, not, ◌&&◌, ◌||◌, Option, none, some, List, [], ◌∷◌, ◌++◌, map, keep, Text,
  text_Eq, nat_Eq, if◌then◌else◌, maybe, length, lookup, erase,
}
use openclaw_webchannel.Retention.{Budget}
use openclaw_webchannel.Dispatcher.{
  Entry, EntryState, Lease, Turn, queued, handling, Session, Dispatcher, Offer, BatchLease,
  lease_of, disposed_lease, is_empty, is_some, is_live, release_all, release_supplied, messages,
  session_of, find_lease, put, put_pair, begin_batch, offer, commit,
}

module _ {M : Type 0} where
  -- The entries that `finish` moves to the queue, as they stand there.
  unfoldable pub attach : List (Entry M) → List (Entry M)
  attach [] = []
  attach (e ∷ es) = elim e.state [
    | EntryState.committed ↦ record e { state = EntryState.attached } ∷ attach es
    | EntryState.provisional ↦ attach es
    | EntryState.rolled_back ↦ attach es
    | EntryState.attached ↦ attach es
  ]

  unfoldable pub is_provisional : Entry M → Bool
  is_provisional e = elim e.state [
    | EntryState.provisional ↦ true
    | EntryState.committed ↦ false
    | EntryState.rolled_back ↦ false
    | EntryState.attached ↦ false
  ]

  abbrev pub live_entries : List (ℕ × Lease M) → List (Entry M)
  live_entries [] = []
  live_entries ((id, l) ∷ rest) = keep is_live l.entries ++ live_entries rest

  abbrev pub roll_back : Entry M → Entry M
  roll_back e = record e { state = EntryState.rolled_back }

  abbrev pub empty_lease : Lease M → Lease M
  empty_lease l = record l { entries = map roll_back l.entries }

  abbrev pub empty_leases : List (ℕ × Lease M) → List (ℕ × Lease M)
  empty_leases [] = []
  empty_leases ((id, l) ∷ rest) = (id, empty_lease l) ∷ empty_leases rest

  abbrev pub clear_session : Dispatcher M → Text → Session M → Dispatcher M × List M
  clear_session d key s = (
    put d key (release_all d.budget (s.pending ++ live_entries s.open_leases))
        (record s { pending = []; open_leases = empty_leases s.open_leases }),
    messages (s.pending ++ live_entries s.open_leases),
  )

  -- `clearPending`.
  unfoldable pub clear_pending : Dispatcher M → Text → Dispatcher M × List M
  clear_pending d key = maybe (d, []) (clear_session d key) (lookup key d.sessions)

  abbrev pub pending_entries : List (Text × Session M) → List (Entry M)
  pending_entries [] = []
  pending_entries ((key, s) ∷ rest) = s.pending ++ pending_entries rest

  abbrev pub leased_entries : List (Text × Session M) → List (Entry M)
  leased_entries [] = []
  leased_entries ((key, s) ∷ rest) = live_entries s.open_leases ++ leased_entries rest

  -- The loop of `dispose`, session by session.
  unfoldable pub release_sessions : Budget → List (Text × Session M) → Budget
  release_sessions b [] = b
  release_sessions b ((key, s) ∷ rest) =
      release_sessions (release_all (release_all b s.pending) (live_entries s.open_leases)) rest

  abbrev pub queued_turns : List (Text × Session M) → List (Text × M)
  queued_turns [] = []
  queued_turns ((key, s) ∷ rest) = elim s.running [
    | none ↦ queued_turns rest
    | some handling ↦ queued_turns rest
    | some (queued m) ↦ (key, m) ∷ queued_turns rest
  ]

  -- With the counts `pending` and `provisional`.
  unfoldable pub dispose : Dispatcher M → Dispatcher M × (ℕ × ℕ)
  dispose d = if d.disposed then (d, (0, 0)) else (
    record d {
      budget = release_sessions d.budget d.sessions;
      sessions = [];
      orphans = d.orphans ++ queued_turns d.sessions;
      disposed = true;
    },
    (length (pending_entries d.sessions), length (leased_entries d.sessions)),
  )

  pub pending_sessions : Dispatcher M → ℕ
  pending_sessions d = length d.sessions

  pub pending_buffered : Dispatcher M → Text → ℕ
  pending_buffered d key = length (session_of d key).pending

  -- What the microtask of a turn hands to the handler.
  abbrev pub handed : Dispatcher M → M → Option M
  handed d m = if d.disposed then none else some m

  -- The microtask of a turn whose session is gone.
  abbrev pub run_orphan : Dispatcher M → Text → Option M → Dispatcher M × Option M
  run_orphan d key none = (d, none)
  run_orphan d key (some m) = (record d { orphans = erase key d.orphans }, handed d m)

  -- The microtask of a turn whose session is there.
  abbrev pub call_handler :
      Dispatcher M → Text → Session M → Option (Turn M) → Dispatcher M × Option M
  call_handler d key s none = (d, none)
  call_handler d key s (some handling) = (d, none)
  call_handler d key s (some (queued m)) =
      (put d key d.budget (record s { running = some handling }), handed d m)

  unfoldable pub run_turn : Dispatcher M → Text → Dispatcher M × Option M
  run_turn d key =
      maybe (run_orphan d key (lookup key d.orphans)) (λ s. call_handler d key s s.running)
        (lookup key d.sessions)

  -- The session once `finish` has taken its lease out.
  abbrev pub without_lease : Session M → ℕ → Lease M → Session M
  without_lease s id l = record s {
    pending = s.pending ++ attach l.entries;
    open_leases = erase id s.open_leases;
  }

module _ {M : Type 0} (coalesce : List M → Option M) where
  -- On entries that have left the queue.
  unfoldable pub start_turn : Bool → Budget → Session M → List (Entry M) → Budget × Session M
  start_turn disposed b s entries =
      if disposed || is_empty entries then (release_all b entries, s) else (
        release_all b entries,
        maybe s (λ m. record s { running = some (queued m) }) (coalesce (messages entries)),
      )

  unfoldable pub drain : Bool → Budget → Session M → Budget × Session M
  unfolding start_turn
  drain disposed b s =
      if is_some s.running || not (is_empty s.open_leases)
      then (b, s)
      else let rest = record s { ready_to_drain = false; pending = [] } in
        if is_empty s.pending then (b, rest) else start_turn disposed b rest s.pending

  abbrev pub settled_session : Bool → Budget → Session M → Budget × Session M
  settled_session disposed b s =
      let s' = record s { running = none } in
      if disposed
      then (release_all b s.pending, record s' { pending = [] })
      else if not (is_empty s.open_leases)
      then (b, record s' { ready_to_drain = true })
      else drain disposed b s'

  abbrev pub settle_turn : Dispatcher M → Text → Session M → Option (Turn M) → Dispatcher M
  settle_turn d key s none = d
  settle_turn d key s (some (queued m)) = d
  settle_turn d key s (some handling) = put_pair d key (settled_session d.disposed d.budget s)

  -- The reaction to the settled promise of a turn whose handler has returned.
  unfoldable pub settle : Dispatcher M → Text → Dispatcher M
  unfolding drain
  settle d key = maybe d (λ s. settle_turn d key s s.running) (lookup key d.sessions)

  abbrev pub finish_drain : Bool → Budget → Session M → Budget × Session M
  finish_drain disposed b s =
      if not (is_some s.running) && is_empty s.open_leases
      then drain disposed b s
      else if s.ready_to_drain && is_empty s.open_leases
      then drain disposed b s
      else (b, s)

  unfoldable pub finish : Dispatcher M → BatchLease → Dispatcher M
  unfolding attach drain
  finish d disposed_lease = d
  finish d (lease_of key id) =
      maybe d
        (λ l. put_pair d key (
          finish_drain d.disposed (release_all d.budget (keep is_provisional l.entries))
            (without_lease (session_of d key) id l)))
        (find_lease (session_of d key) id)

  -- What `dispatch` does between its `offer` and its `finish`.
  abbrev pub after_offer : Dispatcher M → BatchLease → Offer → Option ℕ → Dispatcher M
  after_offer d lease (Offer.accepted i) supplied = commit d lease i
  after_offer d lease (Offer.throws e) supplied = d
  after_offer d lease _ supplied = record d { budget = release_supplied d.budget supplied }

  -- Where `offer` throws, the lease stays open.
  abbrev pub finish_unless_thrown : Dispatcher M → BatchLease → Offer → Dispatcher M
  finish_unless_thrown d lease (Offer.throws e) = d
  finish_unless_thrown d lease _ = finish d lease

  unfoldable pub dispatch : ℕ → Option ℕ → Dispatcher M → Text → M → Option ℕ → Dispatcher M × Offer
  dispatch token measured d key m supplied =
      let opened = begin_batch d key in
      let offered = offer token measured opened.0 opened.1 m supplied in
      (
        finish_unless_thrown (after_offer offered.0 opened.1 offered.1 supplied) opened.1 offered.1,
        offered.1,
      )
