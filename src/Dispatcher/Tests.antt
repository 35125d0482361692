-- ===== src/Dispatcher/Tests.antt =====
-- The dispatcher of inbound-queue.ts, run on small inputs.
use openclaw_webchannel.Common.{
  ℕ, ◌≡◌, refl, true, false, not, ◌||◌, Option, none, some, List, [], ◌∷◌, ◌++◌, Text, text_Eq,
  lookup, insert, erase, text_eq, get_elem?, sum_by,
}
use openclaw_webchannel.Retention.{
  default_busy_turn_limits, empty, RetentionOwner, Reservation, try_reserve, limit_reason,
  session_state, admit, charge, add_usage, request_release, begin_release, finalize_release,
  put_session, sub_usage, uncharge,
}
use openclaw_webchannel.Dispatcher.{
  Dispatcher, Session, EntryState, session_of, is_empty, is_some, messages, handling, begin_batch,
  offer, offer_to, offer_unsupplied, checked_charge, commit, put, is_idle, release_all,
  release_handle,
}
use openclaw_webchannel.Dispatcher.Turns.{
  run_turn, settle, dispatch, finish, drain, start_turn, attach, is_provisional, dispose,
  release_sessions,
}
use openclaw_webchannel.Dispatcher.Run.{Call, runs, dispatches, disposes, init, run, step}
use openclaw_webchannel.Dispatcher.Progress.{queued_work_waits}
use openclaw_webchannel.Dispatcher.Queue.{Steps, line, concat, merged, to_call}
use openclaw_webchannel.Dispatcher.Refine.{all_joins, all_hands, run_refines_queue}
use openclaw_webchannel.Dispatcher.Holdings.{Holds}
use openclaw_webchannel.Dispatcher.Outstanding.{in_use_is_held, disposed_releases_all}
use openclaw_webchannel.Dispatcher.Ends.{dispose_silences, settle_starts_next}

abbrev peer : Text
peer = 1 ∷ []

-- Messages are numbers; a turn's message is their sum, and each takes three bytes.
abbrev coalesce : List ℕ → Option ℕ
coalesce ms = some (sum_by (λ m. m) ms)

abbrev measure : ℕ → Option ℕ
measure m = some 3

abbrev token : Text → ℕ
token key = 7

abbrev start : Dispatcher ℕ
start = init (empty default_busy_turn_limits)

-- A turn handles the first message, and the second waits.
abbrev busy_calls : List (Call ℕ)
busy_calls = dispatches peer 10 none ∷ runs peer ∷ dispatches peer 20 none ∷ []

abbrev busy_session : Session ℕ
busy_session = record {
  running = some handling;
  pending = record { message = 20; reservation = 1; state = EntryState.attached } ∷ [];
  open_leases = [];
  ready_to_drain = false;
}

busy_test : lookup peer (run coalesce measure token start busy_calls).sessions ≡ some busy_session
unfolding run step dispatch begin_batch offer offer_to offer_unsupplied checked_charge commit finish
    run_turn put is_idle drain start_turn attach is_provisional release_all release_handle lookup
    insert erase text_eq try_reserve limit_reason session_state admit charge add_usage
    request_release begin_release finalize_release put_session sub_usage uncharge
busy_test = refl

-- The second message is in use, and held by the queue.
abbrev waiting : Reservation
waiting = record {
  token = 7;
  charged_bytes = 3;
  owner = RetentionOwner.pending;
  released = false;
  release_requested = false;
  holds = 0;
  active = [];
}

waiting_test :
    get_elem? (run coalesce measure token start busy_calls).budget.reservations 1 ≡ some waiting
unfolding run step dispatch begin_batch offer offer_to offer_unsupplied checked_charge commit finish
    run_turn put is_idle drain start_turn attach is_provisional release_all release_handle lookup
    insert erase text_eq try_reserve limit_reason session_state admit charge add_usage
    request_release begin_release finalize_release put_session sub_usage uncharge
waiting_test = refl

abbrev returned : Reservation
returned = record waiting { released = true; release_requested = true }

returned_test :
    get_elem? (run coalesce measure token start (busy_calls ++ disposes ∷ [])).budget.reservations 1
    ≡ some returned
unfolding dispose release_sessions run step dispatch begin_batch offer offer_to offer_unsupplied
    checked_charge commit finish run_turn put is_idle drain start_turn attach is_provisional
    release_all release_handle lookup insert erase text_eq try_reserve limit_reason session_state
    admit charge add_usage request_release begin_release finalize_release put_session sub_usage
    uncharge
returned_test = refl

off_test : (run coalesce measure token start (busy_calls ++ disposes ∷ [])).disposed ≡ true
unfolding dispose run step dispatch begin_batch offer offer_to offer_unsupplied checked_charge
    commit finish run_turn put is_idle drain start_turn attach is_provisional release_all
    release_handle lookup insert erase text_eq try_reserve limit_reason session_state admit charge
    add_usage request_release begin_release finalize_release put_session sub_usage uncharge
off_test = refl

usable_test : (run coalesce measure token start busy_calls).disposed ≡ false
unfolding run step dispatch begin_batch offer offer_to offer_unsupplied checked_charge commit finish
    run_turn put is_idle drain start_turn attach is_provisional release_all release_handle lookup
    insert erase text_eq try_reserve limit_reason session_state admit charge add_usage
    request_release begin_release finalize_release put_session sub_usage uncharge
usable_test = refl

queued_work_waits_example :
    (is_some busy_session.running || not (is_empty busy_session.open_leases)) ≡ true
queued_work_waits_example =
    queued_work_waits coalesce measure token (empty default_busy_turn_limits) busy_calls peer
      busy_session busy_test refl

run_refines_queue_example :
    let s = session_of (run coalesce measure token start busy_calls) peer in
    let ins = all_joins coalesce measure token start busy_calls peer in
    let handed = all_hands coalesce measure token start busy_calls peer in
    (batches : List (List ℕ)) × (Steps coalesce
      (line none [])
      ins
      batches
      handed
      (line s.running (messages s.pending)))
    × (ins ≡ concat batches ++ messages s.pending)
    × (merged coalesce batches ≡ handed ++ to_call s.running)
unfolding run step lookup
run_refines_queue_example =
    run_refines_queue coalesce measure token (empty default_busy_turn_limits) busy_calls peer refl

in_use_is_held_example :
    (key : Text) × Holds (session_of (run coalesce measure token start busy_calls) key) 1
in_use_is_held_example =
    in_use_is_held coalesce measure token default_busy_turn_limits busy_calls 1 refl
      (waiting, (waiting_test, refl))

disposed_releases_all_example : returned.release_requested ≡ true
disposed_releases_all_example =
    disposed_releases_all coalesce measure token default_busy_turn_limits
      (busy_calls ++ disposes ∷ []) 1 returned refl off_test returned_test

-- A turn that is queued when the dispatcher is disposed.
abbrev queued_calls : List (Call ℕ)
queued_calls = dispatches peer 30 none ∷ disposes ∷ []

dispose_silences_example :
    ((run_turn (run coalesce measure token start queued_calls) peer).1 ≡ none)
    × ((run coalesce measure token start queued_calls).sessions ≡ [])
dispose_silences_example =
    dispose_silences coalesce measure token (empty default_busy_turn_limits)
      (dispatches peer 30 none ∷ []) [] peer

settle_starts_next_example :
    ((run_turn (settle coalesce (run coalesce measure token start busy_calls) peer) peer).1
      ≡ some 20)
    × ((session_of
          (settle coalesce (run coalesce measure token start busy_calls) peer)
          peer).pending
        ≡ [])
settle_starts_next_example =
    settle_starts_next coalesce (run coalesce measure token start busy_calls) peer busy_session 20
      busy_test refl usable_test refl refl refl
