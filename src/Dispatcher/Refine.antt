-- ===== src/Dispatcher/Refine.antt =====
-- inbound-queue.ts: the dispatcher refines a queue for each session.
use openclaw_webchannel.Common.{
  subst, ℕ, ◌≡◌, refl, Bool, true, false, ◌&&◌, Option, none, List, [], ◌∷◌, ◌++◌, Text, text_Eq,
  arith, lookup,
}
use openclaw_webchannel.Retention.{Budget}
use openclaw_webchannel.Dispatcher.{Dispatcher, session_of, messages}
use openclaw_webchannel.Dispatcher.Turns.{run_turn, dispatch}
use openclaw_webchannel.Dispatcher.Joins.{accepted_message, dispatch_joins-accepted_message}
use openclaw_webchannel.Dispatcher.Run.{
  Call, begins, clears, runs, settles, offers, commits, rolls_back, finishes, dispatches, disposes,
  spends, init, step, run,
}
use openclaw_webchannel.Dispatcher.Progress.{IsLive, step-IsLive, init-IsLive}
use openclaw_webchannel.Dispatcher.Queue.{
  line, Steps, Steps_conserve, Steps_hand, concat, merged, to_call, at, list_of,
}
use openclaw_webchannel.Dispatcher.Lines.{Refines, same_line, Refines-trans, budget-Quiet}
use openclaw_webchannel.Dispatcher.Moves.{
  settle-Refines, run_turn-Refines, begin_batch-Refines, offer-Refines, commit-Refines,
  rollback-Refines, finish-Refines, dispatch-Refines, finish_joins,
}

-- The calls that give up no work: all but `clearPending` and `dispose`.
abbrev pub keeps_work : {M : Type 0} → Call M → Bool
keeps_work (clears key) = false
keeps_work disposes = false
keeps_work _ = true

abbrev pub all_keep : {M : Type 0} → List (Call M) → Bool
all_keep [] = true
all_keep (c ∷ cs) = keeps_work c && all_keep cs

module _ {M : Type 0} (coalesce : List M → Option M) (measure : M → Option ℕ)
    (session_token : Text → ℕ) where
  -- The messages that a call brings to the queue of the session `read`: the one that `dispatch` was
  -- given, if it accepted it, and those of the committed entries of a lease that is finished.
  abbrev pub call_joins : Dispatcher M → Call M → Text → List M
  call_joins d (finishes lease) read = finish_joins coalesce d lease read
  call_joins d (dispatches key m supplied) read =
      at key read
        (accepted_message m (dispatch coalesce (session_token key) (measure m) d key m supplied).1)
  call_joins d _ read = []

  -- What a call hands to the handler of the session `read`.
  abbrev pub call_hands : Dispatcher M → Call M → Text → List M
  call_hands d (runs key) read = at key read (list_of (run_turn d key).1)
  call_hands d _ read = []

  abbrev pub all_joins : Dispatcher M → List (Call M) → Text → List M
  all_joins d [] read = []
  all_joins d (c ∷ cs) read =
      call_joins d c read ++ all_joins (step coalesce measure session_token d c) cs read

  abbrev pub all_hands : Dispatcher M → List (Call M) → Text → List M
  all_hands d [] read = []
  all_hands d (c ∷ cs) read =
      call_hands d c read ++ all_hands (step coalesce measure session_token d c) cs read

  step-Refines :
      (d : Dispatcher M) (c : Call M) (read : Text)
      → IsLive d
      → keeps_work c ≡ true
      → Refines coalesce
          (call_joins d c read)
          (call_hands d c read)
          d
          read
          (step coalesce measure session_token d c)
  unfolding step
  step-Refines d (begins key) read v h = begin_batch-Refines coalesce d key read
  step-Refines d (clears key) read v h = absurd (ground (arith, h))
  step-Refines d (runs key) read v h = run_turn-Refines coalesce d key read v
  step-Refines d (settles key) read v h = settle-Refines coalesce d key read v
  step-Refines d (offers lease m supplied) read v h =
      offer-Refines coalesce _ _ d lease m supplied read
  step-Refines d (commits lease i) read v h = commit-Refines coalesce d lease i read
  step-Refines d (rolls_back lease i) read v h = rollback-Refines coalesce d lease i read
  step-Refines d (finishes lease) read v h = finish-Refines coalesce d lease read v
  step-Refines d (dispatches key m supplied) read v h =
      let d' = (dispatch coalesce (session_token key) (measure m) d key m supplied).0 in
      subst (λ ins. Refines coalesce ins [] d read d')
        (dispatch_joins-accepted_message coalesce (session_token key) (measure m) d key m supplied
          read)
        (dispatch-Refines coalesce _ _ d key m supplied read v)
  step-Refines d disposes read v h = absurd (ground (arith, h))
  step-Refines d (spends c) read v h = budget-Quiet coalesce d _ read

  run-Refines :
      (d : Dispatcher M) (cs : List (Call M)) (read : Text)
      → IsLive d
      → all_keep cs ≡ true
      → Refines coalesce
          (all_joins d cs read)
          (all_hands d cs read)
          d
          read
          (run coalesce measure session_token d cs)
  unfolding run
  run-Refines d [] read v h = same_line coalesce refl
  run-Refines d (c ∷ cs) read v h =
      let d' = step coalesce measure session_token d c in
      Refines-trans coalesce d d' _ read _ _ _ _ (step-Refines d c read v (ground (arith, h))) (
        run-Refines d' cs read (step-IsLive coalesce measure session_token d c v)
          (ground (arith, h)))

  -- The dispatcher refines a queue per session. While nothing is cleared or disposed, whatever is
  -- called on a new dispatcher: each message that `dispatch` accepted, and those of the entries that
  -- were committed when their lease was finished, join the session's queue in that order; they are
  -- the batches that turns took, one after the other, and then what waits; and each batch that
  -- merges is handed to the handler once, merged and in order, but for that of a turn whose
  -- microtask has not run. All of it is steps of the queue, with one turn at a time.
  pub run_refines_queue :
      (b : Budget) (cs : List (Call M)) (key : Text)
      → all_keep cs ≡ true
      → let s = session_of (run coalesce measure session_token (init b) cs) key in
        let ins = all_joins (init b) cs key in
        let handed = all_hands (init b) cs key in
        (batches : List (List M)) × (Steps coalesce
          (line none [])
          ins
          batches
          handed
          (line s.running (messages s.pending)))
        × (ins ≡ concat batches ++ messages s.pending)
        × (merged coalesce batches ≡ handed ++ to_call s.running)
  unfolding lookup
  run_refines_queue b cs key h =
      let r = run-Refines (init b) cs key (init-IsLive b) h in
      let steps = r.moves.1 in
      (
        r.moves.0,
        steps,
        Steps_conserve coalesce _ _ _ _ _ steps,
        Steps_hand coalesce _ _ _ _ _ steps,
      )
