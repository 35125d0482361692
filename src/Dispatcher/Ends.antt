-- ===== src/Dispatcher/Ends.antt =====
-- inbound-queue.ts: how a turn of the dispatcher gives way to the next, and what ends them all.
use openclaw_webchannel.Common.{
  ◌∙◌, ℕ, ◌≡◌, refl, sym, subst, ap, true, false, Option, none, some, List, [], ◌∷◌, ◌++◌, Text,
  text_Eq, arith, lookup, maybe, nat_Eq,
}
use openclaw_webchannel.Retention.{Budget}
use openclaw_webchannel.Dispatcher.{
  Session, Dispatcher, queued, handling, is_empty, put, is_idle, release_all, session_of, or_new,
  messages, begin_batch, offer, commit, rollback,
}
use openclaw_webchannel.Dispatcher.Turns.{
  start_turn, drain, settle, settle_turn, run_turn, call_handler, settled_session, run_orphan,
  finish, dispatch, clear_pending, dispose,
}
use openclaw_webchannel.Dispatcher.Place.{put_found}
use openclaw_webchannel.Dispatcher.Progress.{run-IsLive, init-IsLive}
use openclaw_webchannel.Dispatcher.Run.{
  Call, begins, clears, runs, settles, offers, commits, rolls_back, finishes, dispatches, disposes,
  spends, init, step, run,
}

module _ {M : Type 0} (coalesce : List M → Option M) (measure : M → Option ℕ)
    (session_token : Text → ℕ) where
  step_disposed :
      (d : Dispatcher M) (c : Call M)
      → d.disposed ≡ true
      → (step coalesce measure session_token d c).disposed ≡ true
  unfolding step begin_batch clear_pending run_turn settle offer commit rollback finish dispatch
      dispose put
  step_disposed d (begins key) h = ground (arith, h)
  step_disposed d (clears key) h = ground (arith, h)
  step_disposed d (runs key) h = ground (arith, h)
  step_disposed d (settles key) h = ground (arith, h)
  step_disposed d (offers lease m supplied) h = ground (arith, h)
  step_disposed d (commits lease i) h = ground (arith, h)
  step_disposed d (rolls_back lease i) h = ground (arith, h)
  step_disposed d (finishes lease) h = ground (arith, h)
  step_disposed d (dispatches key m supplied) h = ground (arith, h)
  step_disposed d disposes h = ground (arith, h)
  step_disposed d (spends c) h = ground (arith, h)

  run_disposed :
      (d : Dispatcher M) (cs : List (Call M))
      → d.disposed ≡ true
      → (run coalesce measure session_token d cs).disposed ≡ true
  unfolding run
  run_disposed d [] h = h
  run_disposed d (c ∷ cs) h =
      run_disposed (step coalesce measure session_token d c) cs (step_disposed d c h)

  run_append :
      (d : Dispatcher M) (cs cs' : List (Call M))
      → run coalesce measure session_token d (cs ++ cs')
        ≡ run coalesce measure session_token (run coalesce measure session_token d cs) cs'
  unfolding run
  run_append d [] cs' = refl
  run_append d (c ∷ cs) cs' = run_append (step coalesce measure session_token d c) cs cs'

  disposes_ends : (d : Dispatcher M) → (dispose d).0.disposed ≡ true
  unfolding dispose
  disposes_ends d = ground arith

  orphan_silent :
      (d : Dispatcher M) (key : Text)
      → d.disposed ≡ true
      → (o : Option M) → (run_orphan d key o).1 ≡ none
  orphan_silent d key off none = refl
  orphan_silent d key off (some m) = rw off refl

  -- After `dispose` the handler is never called again: whatever was called before and is called
  -- after, the microtask of a turn that was queued hands it no message, and no session is left.
  pub dispose_silences :
      (b : Budget) (cs cs' : List (Call M)) (key : Text)
      → let d = run coalesce measure session_token (init b) (cs ++ disposes ∷ cs') in
        ((run_turn d key).1 ≡ none) × (d.sessions ≡ [])
  unfolding run_turn lookup run step
  dispose_silences b cs cs' key =
      let d = run coalesce measure session_token (init b) (cs ++ disposes ∷ cs') in
      let before = run coalesce measure session_token (init b) cs in
      let off : d.disposed ≡ true =
        subst (λ x. x.disposed ≡ true) (sym (run_append (init b) cs (disposes ∷ cs')))
          (run_disposed (dispose before).0 cs' (disposes_ends before)) in
      let gone =
        (run-IsLive coalesce measure session_token (init b) (cs ++ disposes ∷ cs')
            (init-IsLive b)).closed
          off in
      (
        ap
              (λ ss.
                (maybe (run_orphan d key (lookup key d.orphans))
                  (λ s. call_handler d key s s.running) (lookup key ss)).1)
              gone
            ∙ orphan_silent d key off (lookup key d.orphans),
        gone,
      )

module _ {M : Type 0} (coalesce : List M → Option M) where
  -- The session whose turn takes the queue, and where the microtask finds it.
  next_session : Session M → M → Session M
  next_session s m = record {
    running = some (queued m);
    pending = [];
    open_leases = s.open_leases;
    ready_to_drain = false;
  }

  settled_next :
      (b : Budget) (s : Session M) (m : M)
      → s.open_leases ≡ []
      → is_empty s.pending ≡ false
      → coalesce (messages s.pending) ≡ some m
      → settled_session coalesce false b s ≡ (release_all b s.pending, next_session s m)
  unfolding drain start_turn next_session
  settled_next b s m closed waiting merged = rw (closed, waiting, merged) refl

  settle_next :
      (d : Dispatcher M) (key : Text) (s : Session M) (m : M)
      → lookup key d.sessions ≡ some s
      → s.running ≡ some handling
      → settled_session coalesce d.disposed d.budget s
        ≡ (release_all d.budget s.pending, next_session s m)
      → lookup key (settle coalesce d key).sessions ≡ some (next_session s m)
  unfolding settle is_idle next_session
  settle_next d key s m found at e =
      let d' = put d key (release_all d.budget s.pending) (next_session s m) in
      let there : lookup key d'.sessions ≡ some (next_session s m) =
        put_found d key (release_all d.budget s.pending) (next_session s m) in
      subst
        (λ o.
          lookup key (maybe d (λ s'. settle_turn coalesce d key s' s'.running) o).sessions
          ≡ some (next_session s m))
        (sym found)
        (subst (λ t. lookup key (settle_turn coalesce d key s t).sessions ≡ some (next_session s m))
          (sym at)
          (subst (λ p. lookup key (put d key p.0 p.1).sessions ≡ some (next_session s m)) (sym e)
            there))

  settle_usable :
      (d : Dispatcher M) (key : Text)
      → d.disposed ≡ false
      → (settle coalesce d key).disposed ≡ false
  unfolding settle put
  settle_usable d key h = ground (arith, h)

  -- A turn that ends gives way to the next: where its handler has returned, the dispatcher is not
  -- disposed, no lease is open and messages wait that merge into one, the reaction to its promise
  -- starts the next turn, whose microtask calls the handler with the merged message, and no
  -- message is left waiting.
  pub settle_starts_next :
      (d : Dispatcher M) (key : Text) (s : Session M) (m : M)
      → lookup key d.sessions ≡ some s
      → s.running ≡ some handling
      → d.disposed ≡ false
      → s.open_leases ≡ []
      → is_empty s.pending ≡ false
      → coalesce (messages s.pending) ≡ some m
      → let d' = settle coalesce d key in
        ((run_turn d' key).1 ≡ some m) × ((session_of d' key).pending ≡ [])
  unfolding run_turn next_session
  settle_starts_next d key s m found at usable closed waiting merged =
      let e : settled_session coalesce d.disposed d.budget s
          ≡ (release_all d.budget s.pending, next_session s m) =
        subst
          (λ off.
            settled_session coalesce off d.budget s
            ≡ (release_all d.budget s.pending, next_session s m))
          (sym usable) (settled_next d.budget s m closed waiting merged) in
      let d' = settle coalesce d key in
      let there = settle_next d key s m found at e in
      (
        subst
            (λ o.
              (maybe (run_orphan d' key (lookup key d'.orphans))
                (λ s'. call_handler d' key s' s'.running) o).1
              ≡ some m)
            (sym there) (rw (settle_usable d key usable) refl),
        ap (λ o. Session.pending (or_new o)) there,
      )
