-- ===== src/Dispatcher/Moves.antt =====
-- inbound-queue.ts: each call on the dispatcher moves the lines of its sessions.
use openclaw_webchannel.Common.{
  ap, ◌∷◌, ◌++◌, maybe, Bool-cases, inl, inr, erase, arith, if◌then◌else◌, ℕ, ◌≡◌, refl, sym, subst,
  false, Option, none, some, List, [], Text, text_Eq, lookup, maybe_lem, if_lem, keep, get_elem?,
  set,
}
use openclaw_webchannel.Retention.{Budget}
use openclaw_webchannel.Dispatcher.{
  Lease, Session, Dispatcher, Turn, queued, handling, Offer, BatchLease, lease_of, disposed_lease,
  put, put_lease, new_lease, session_of, find_lease, messages, begin_batch, offer, commit, rollback,
  offer_to, release_supplied, release_handle, change_entry, commit_entry, mark, EntryState, is_live,
  release_all, or_new, Entry, put_pair,
}
use openclaw_webchannel.Dispatcher.Turns.{
  settle_turn, settle, call_handler, handed, run_orphan, run_turn, finish_drain, finish,
  without_lease, attach, after_offer, finish_unless_thrown, dispatch, settled_session,
  is_provisional,
}
use openclaw_webchannel.Dispatcher.Progress.{
  IsLive, found_usable, lease_session, begin_batch-IsLive, offer-IsLive, commit-IsLive,
  budget-IsLive,
}
use openclaw_webchannel.Dispatcher.Queue.{line, line_of, rests, calls, Reaches, stays, at, list_of}
use openclaw_webchannel.Dispatcher.Lines.{
  Refines, LeadsTo, joined, finish_line, settled_line, FirstQuiet, same_line, put-Refines,
  put-Quiet, at-nil, Quiet, found-Quiet, Refines-trans, budget-Quiet,
}

-- The messages of the entries that are committed.
abbrev pub committed_messages : {M : Type 0} → List (Entry M) → List M
committed_messages [] = []
committed_messages (e ∷ es) = elim e.state [
  | EntryState.committed ↦ e.message ∷ committed_messages es
  | EntryState.provisional ↦ committed_messages es
  | EntryState.rolled_back ↦ committed_messages es
  | EntryState.attached ↦ committed_messages es
]

messages-attach : {M : Type 0} (es : List (Entry M)) → messages (attach es) ≡ committed_messages es
unfolding attach
messages-attach [] = refl
messages-attach (e ∷ es) = ground (arith, messages-attach es)

module _ {M : Type 0} (coalesce : List M → Option M) where
  pub settle_turn_line :
      (d : Dispatcher M) (key read : Text) (s : Session M) (turn : Option (Turn M))
      → d.disposed ≡ false
      → lookup key d.sessions ≡ some s
      → s.running ≡ turn
      → Quiet coalesce d read (settle_turn coalesce d key s turn)
  settle_turn_line d key read s none usable found e = same_line coalesce refl
  settle_turn_line d key read s (some (queued m)) usable found e = same_line coalesce refl
  settle_turn_line d key read s (some handling) usable found e =
      found-Quiet coalesce d key read _ s _ found (
        subst
          (λ t.
            LeadsTo coalesce (line t (messages s.pending))
              (settled_session coalesce d.disposed d.budget s))
          (sym e)
          (subst
            (λ off.
              LeadsTo coalesce (line (some handling) (messages s.pending))
                (settled_session coalesce off d.budget s))
            (sym usable) (settled_line coalesce d.budget s.pending s.open_leases s.ready_to_drain)))

  -- The microtask of a turn, with the message that it hands to the handler.
  abbrev pub Hands : Dispatcher M → Text → Text → Dispatcher M × Option M → Type 0
  Hands d key read p = Refines coalesce [] (at key read (list_of p.1)) d read p.0

  Quiet-Hands :
      (d d' : Dispatcher M) (key read : Text)
      → Quiet coalesce d read d'
      → Hands d key read (d', none)
  Quiet-Hands d d' key read q =
      subst (λ ms. Refines coalesce [] ms d read d') (sym (at-nil coalesce key read)) q

  called-Hands :
      (d d' : Dispatcher M) (key read : Text) (m : M)
      → Refines coalesce (at key read []) (at key read (m ∷ [])) d read d'
      → d.disposed ≡ false
      → Hands d key read (d', handed d m)
  called-Hands d d' key read m r usable =
      subst (λ off. Hands d key read (d', if off then none else some m)) (sym usable)
        (subst (λ ms. Refines coalesce ms (at key read (m ∷ [])) d read d')
          (at-nil coalesce key read) r)

  pub call_handler_line :
      (d : Dispatcher M) (key read : Text) (s : Session M) (turn : Option (Turn M))
      → d.disposed ≡ false
      → lookup key d.sessions ≡ some s
      → s.running ≡ turn
      → Hands d key read (call_handler d key s turn)
  call_handler_line d key read s none usable found e =
      Quiet-Hands d d key read (same_line coalesce refl)
  call_handler_line d key read s (some handling) usable found e =
      Quiet-Hands d d key read (same_line coalesce refl)
  call_handler_line d key read s (some (queued m)) usable found e =
      called-Hands d _ key read m
        (put-Refines coalesce d key read d.budget (record s { running = some handling }) [] (m ∷ [])
          (subst
            (λ o.
              Reaches coalesce [] (m ∷ []) (line_of (or_new o))
                (line (some handling) (messages s.pending)))
            (sym found)
            (subst
              (λ t.
                Reaches coalesce [] (m ∷ []) (line t (messages s.pending))
                  (line (some handling) (messages s.pending)))
              (sym e) ([], calls m [] [] [] rests))))
        usable

  -- Only a disposal leaves a microtask without a session, and it is silent.
  run_orphan_line :
      (d : Dispatcher M) (key read : Text) (o : Option M)
      → (d.disposed ≡ false → o ≡ none)
      → Hands d key read (run_orphan d key o)
  run_orphan_line d key read none alone = Quiet-Hands d d key read (same_line coalesce refl)
  run_orphan_line d key read (some m) alone = elim (Bool-cases d.disposed) [
    | inl off ↦
        subst
          (λ gone.
            Hands d key read
              (record d { orphans = erase key d.orphans }, if gone then none else some m))
          (sym off) (Quiet-Hands d _ key read (same_line coalesce refl))
    | inr usable ↦ absurd (ground (arith, alone usable))
  ]

  pub settle-Refines :
      (d : Dispatcher M) (key read : Text)
      → IsLive d
      → Quiet coalesce d read (settle coalesce d key)
  unfolding settle
  settle-Refines d key read v =
      maybe_lem (Quiet coalesce d read) _ _ _ (λ e. same_line coalesce refl)
        λ s found. settle_turn_line d key read s s.running (found_usable d key s v found) found refl

  pub run_turn-Refines :
      (d : Dispatcher M) (key read : Text) → IsLive d → Hands d key read (run_turn d key)
  unfolding run_turn lookup
  run_turn-Refines d key read v =
      maybe_lem (Hands d key read) _ _ _
        (λ e. run_orphan_line d key read (lookup key d.orphans) (λ u. ap (lookup key) (v.alone u)))
        λ s found.
          call_handler_line d key read s s.running (found_usable d key s v found) found refl

  pub put_lease-Refines :
      (d : Dispatcher M) (key read : Text) (id : ℕ) (l : Lease M) (b : Budget)
      → Quiet coalesce d read (put d key b (put_lease (session_of d key) id l))
  put_lease-Refines d key read id l b = put-Quiet coalesce d key read b _ (stays coalesce)

  pub begin_batch-Refines :
      (d : Dispatcher M) (key read : Text) → Quiet coalesce d read (begin_batch d key).0
  unfolding begin_batch
  begin_batch-Refines d key read =
      if_lem (FirstQuiet coalesce {B = BatchLease} d read) d.disposed _ _
        (λ e. same_line coalesce refl)
        λ e.
          Refines-trans coalesce d
            (put d key d.budget (put_lease (session_of d key) d.next_lease new_lease)) _ read [] []
            [] [] (put_lease-Refines d key read d.next_lease new_lease d.budget)
            (same_line coalesce refl)

  pub offer-Refines :
      (token : ℕ) (measured : Option ℕ) (d : Dispatcher M) (lease : BatchLease) (m : M)
      (supplied : Option ℕ) (read : Text)
      → Quiet coalesce d read (offer token measured d lease m supplied).0
  unfolding offer
  offer-Refines token measured d disposed_lease m supplied read = same_line coalesce refl
  offer-Refines token measured d (lease_of key id) m supplied read =
      maybe_lem (FirstQuiet coalesce {B = Offer} d read) _ _ (find_lease (session_of d key) id)
        (λ e. budget-Quiet coalesce d (release_supplied d.budget supplied) read)
        λ l e.
          let answer = offer_to token measured d.budget l m supplied in
          put_lease-Refines d key read id answer.1.0 answer.0

  pub commit-Refines :
      (d : Dispatcher M) (lease : BatchLease) (i : ℕ) (read : Text)
      → Quiet coalesce d read (commit d lease i)
  unfolding commit
  commit-Refines d disposed_lease i read = same_line coalesce refl
  commit-Refines d (lease_of key id) i read =
      maybe_lem (Quiet coalesce d read) _ _ (find_lease (session_of d key) id)
        (λ e. same_line coalesce refl)
        (λ l e. put_lease-Refines d key read id (change_entry l i commit_entry) d.budget)

  pub rollback-Refines :
      (d : Dispatcher M) (lease : BatchLease) (i : ℕ) (read : Text)
      → Quiet coalesce d read (rollback d lease i)
  unfolding rollback
  rollback-Refines d disposed_lease i read = same_line coalesce refl
  rollback-Refines d (lease_of key id) i read =
      maybe_lem (Quiet coalesce d read) _ _ (find_lease (session_of d key) id)
        (λ e. same_line coalesce refl)
        λ l e.
          maybe_lem (Quiet coalesce d read) _ _ (get_elem? l.entries i)
            (λ none_there. same_line coalesce refl)
            λ entry there.
              if_lem (Quiet coalesce d read) (is_live entry) _ _
                (λ alive.
                  put_lease-Refines d key read id
                    (record l { entries = set l.entries i (mark entry EntryState.rolled_back) })
                    (release_handle d.budget entry.reservation))
                (λ dead. same_line coalesce refl)

  -- What `finish` of a lease brings to the queue of the session `read`.
  abbrev pub finish_joins : Dispatcher M → BatchLease → Text → List M
  finish_joins d disposed_lease read = []
  finish_joins d (lease_of key id) read =
      at key read (maybe [] (λ l. committed_messages l.entries) (find_lease (session_of d key) id))

  finish_found :
      (d : Dispatcher M) (key read : Text) (id : ℕ) (o : Option (Lease M))
      → IsLive d
      → find_lease (session_of d key) id ≡ o
      → Refines coalesce (at key read (maybe [] (λ l. committed_messages l.entries) o)) [] d read (
          maybe d
            (λ l. put_pair d key (
              finish_drain coalesce d.disposed
                (release_all d.budget (keep is_provisional l.entries))
                (without_lease (session_of d key) id l)))
            o)
  finish_found d key read id none v e =
      subst (λ ms. Refines coalesce ms [] d read d) (sym (at-nil coalesce key read))
        (same_line coalesce refl)
  finish_found d key read id (some l) v e =
      let s = session_of d key in
      let b = release_all d.budget (keep is_provisional l.entries) in
      let done = finish_drain coalesce d.disposed b (without_lease s id l) in
      let usable = (lease_session d key id l v e).0 in
      let drained =
        subst
          (λ off.
            LeadsTo coalesce (line s.running (messages (s.pending ++ attach l.entries)))
              (finish_drain coalesce off b (without_lease s id l)))
          (sym usable) (finish_line coalesce b (without_lease s id l)) in
      let r =
        subst (λ ms. Reaches coalesce ms [] (line_of s) (line_of done.1))
          (messages-attach l.entries)
          (joined coalesce s.running s.pending (attach l.entries) _ drained) in
      subst
        (λ ms.
          Refines coalesce (at key read (committed_messages l.entries)) ms d read
            (put d key done.0 done.1))
        (at-nil coalesce key read)
        (put-Refines coalesce d key read done.0 done.1 (committed_messages l.entries) [] r)

  pub finish-Refines :
      (d : Dispatcher M) (lease : BatchLease) (read : Text)
      → IsLive d
      → Refines coalesce (finish_joins d lease read) [] d read (finish coalesce d lease)
  unfolding finish
  finish-Refines d disposed_lease read v = same_line coalesce refl
  finish-Refines d (lease_of key id) read v =
      finish_found d key read id (find_lease (session_of d key) id) v refl

  -- What `dispatch` brings to the queue of the session `read`, after its `offer`.
  abbrev pub after_joins : Dispatcher M → BatchLease → Offer → Option ℕ → Text → List M
  after_joins d lease (Offer.throws e) supplied read = []
  after_joins d lease (Offer.accepted i) supplied read = finish_joins (commit d lease i) lease read
  after_joins d lease answer supplied read =
      finish_joins (after_offer coalesce d lease answer supplied) lease read

  pub after_offer-Refines :
      (d : Dispatcher M) (lease : BatchLease) (answer : Offer) (supplied : Option ℕ) (read : Text)
      → IsLive d
      → Refines coalesce (after_joins d lease answer supplied read) [] d read (
          finish_unless_thrown coalesce (after_offer coalesce d lease answer supplied) lease answer)
  after_offer-Refines d lease (Offer.accepted i) supplied read v =
      Refines-trans coalesce d (commit d lease i) _ read [] [] _ [] (commit-Refines d lease i read)
        (finish-Refines (commit d lease i) lease read (commit-IsLive d lease i v))
  after_offer-Refines d lease (Offer.rejected reason) supplied read v =
      let d' = after_offer coalesce d lease (Offer.rejected reason) supplied in
      Refines-trans coalesce d d' _ read [] [] _ [] (same_line coalesce refl)
        (finish-Refines d' lease read (budget-IsLive d _ v))
  after_offer-Refines d lease Offer.disposed supplied read v =
      let d' = after_offer coalesce d lease Offer.disposed supplied in
      Refines-trans coalesce d d' _ read [] [] _ [] (same_line coalesce refl)
        (finish-Refines d' lease read (budget-IsLive d _ v))
  after_offer-Refines d lease (Offer.throws e) supplied read v = same_line coalesce refl

  abbrev pub dispatch_joins : ℕ → Option ℕ → Dispatcher M → Text → M → Option ℕ → Text → List M
  dispatch_joins token measured d key m supplied read =
      let opened = begin_batch d key in
      let offered = offer token measured opened.0 opened.1 m supplied in
      after_joins offered.0 opened.1 offered.1 supplied read

  pub dispatch-Refines :
      (token : ℕ) (measured : Option ℕ) (d : Dispatcher M) (key : Text) (m : M)
      (supplied : Option ℕ) (read : Text)
      → IsLive d
      → Refines coalesce
          (dispatch_joins token measured d key m supplied read)
          []
          d
          read
          (dispatch coalesce token measured d key m supplied).0
  unfolding dispatch
  dispatch-Refines token measured d key m supplied read v =
      let opened = begin_batch d key in
      let offered = offer token measured opened.0 opened.1 m supplied in
      let live =
        offer-IsLive token measured opened.0 opened.1 m supplied (begin_batch-IsLive d key v) in
      Refines-trans coalesce d opened.0 _ read [] [] _ [] (begin_batch-Refines d key read) (
        Refines-trans coalesce opened.0 offered.0 _ read [] [] _ []
          (offer-Refines token measured opened.0 opened.1 m supplied read)
          (after_offer-Refines offered.0 opened.1 offered.1 supplied read live))
