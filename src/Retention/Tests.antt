-- ===== src/Retention/Tests.antt =====
-- Runs of the budget, and the theorems at inputs that meet their hypotheses.
use openclaw_webchannel.Common.{
  nat_Eq, ◌==◌, true, false, ℕ, ◌≤◌, ◌≡◌, ◌≢◌, ◌⊎◌, refl, List, [], ◌∷◌, arith, lookup, insert,
  sum_by,
}
use openclaw_webchannel.Retention.{
  debounce_waiting, pending, BusyTurnLimits, Budget, Reservation, Error, accepted, rejected, ok,
  throw, empty, charge, try_reserve, limit_reason, session_state, default_busy_turn_limits, hold,
  unhold, request_release, admit, RetentionLimitReason, uncharge, put_session, finalize_release,
  hold_with, unhold_with, settle_hold, begin_release, fresh, release,
}
use openclaw_webchannel.Retention.Tally.{share, one, charged}
use openclaw_webchannel.Retention.Valid.{live, live_in, IsValid}
use openclaw_webchannel.Retention.Steps.{admit-IsValid}
use openclaw_webchannel.Retention.Run.{
  Call, run-IsValid, step, run, reserves, holds, unholds, requests_release, releases, empty-IsValid,
  run_within_limits, run_accounting, run_never_corrupt,
}
use openclaw_webchannel.Retention.Deferral.{Freed, hold_defers_release}
use openclaw_webchannel.Retention.Effects.{HasRoom, Admitted, try_reserve_cases}

program : Unit {0}
unfolding step run try_reserve limit_reason session_state admit charge hold hold_with unhold
    unhold_with settle_hold request_release begin_release release finalize_release uncharge
    put_session lookup insert
program = tt

abbrev small : BusyTurnLimits
small = record default_busy_turn_limits { max_messages_per_session = 1 }

abbrev calls : List Call
calls = reserves 0 10 debounce_waiting ∷ reserves 0 10 pending ∷ holds 0 ∷ requests_release 0 ∷ []

run_test :
    ((run (empty small) calls).process.usage.bytes ≡ 10)
    × ((run (run (empty small) calls) (unholds 0 0 ∷ [])).process.usage.bytes ≡ 0)
    × (step (run (empty small) calls) (releases 0) ≡ throw Error.released_twice)
unfolding program
run_test = (refl, refl, refl)

run_within_limits_example :
    ((run (empty small) calls).process.usage.messages ≤ 1_024)
    × ((run (empty small) calls).process.usage.bytes ≤ 33_554_432)
    × ((session_state (run (empty small) calls) 0).usage.messages ≤ 1)
    × ((session_state (run (empty small) calls) 0).usage.bytes ≤ 1_048_576)
run_within_limits_example = run_within_limits small calls 0

run_accounting_example :
    ((run (empty small) calls).process.usage.messages
      ≡ sum_by (share one live) (run (empty small) calls).reservations)
    × ((run (empty small) calls).process.usage.bytes
        ≡ sum_by (share charged live) (run (empty small) calls).reservations)
    × ((session_state (run (empty small) calls) 0).usage.messages
        ≡ sum_by (share one (live_in 0)) (run (empty small) calls).reservations)
    × ((session_state (run (empty small) calls) 0).usage.bytes
        ≡ sum_by (share charged (live_in 0)) (run (empty small) calls).reservations)
run_accounting_example = run_accounting small calls 0

run_never_corrupt_example :
    (Error.released_twice ≢ Error.no_session_usage)
    × (Error.released_twice ≢ Error.usage_underflow)
    × (Error.released_twice ≢ Error.hold_underflow)
unfolding program
run_never_corrupt_example = run_never_corrupt small calls (releases 0) Error.released_twice refl

try_reserve_cases_example :
    HasRoom (empty small) 0 10
      × ((b' : Budget) × (try_reserve (empty small) 0 10 pending ≡ ok (b', accepted 0))
          × Admitted (empty small) 0 10 pending b')
    ⊎ (¬ HasRoom (empty small) 0 10)
      × ((reason : RetentionLimitReason) × (try_reserve (empty small) 0 10 pending
            ≡ ok (empty small, rejected reason)))
try_reserve_cases_example = try_reserve_cases (empty small) 0 10 pending (omega arith)

abbrev held : Reservation
held = fresh 0 10 pending

one_held-IsValid : IsValid (admit (empty small) 0 10 pending)
unfolding limit_reason session_state lookup
one_held-IsValid = admit-IsValid (empty small) 0 10 pending (empty-IsValid small) refl

abbrev deferred : List Call
deferred = reserves 0 10 pending ∷ holds 0 ∷ holds 0 ∷ requests_release 0 ∷ unholds 0 0 ∷ []

abbrev once_held : Reservation
once_held = record held { release_requested = true; holds = 1; active = false ∷ true ∷ [] }

hold_defers_release_example :
    let b = run (empty small) deferred in
    (asked : Budget) × (request_release b 0 ≡ ok asked)
    × (asked.process ≡ b.process)
    × (asked.sessions ≡ b.sessions)
    × (b' : Budget) × (unhold b 0 1 ≡ ok b')
    × Freed true 10 b.process.usage b'.process.usage
    × ((s : ℕ) → Freed (0 == s) 10 (session_state b s).usage (session_state b' s).usage)
    × (unhold b' 0 1 ≡ ok b')
unfolding program
hold_defers_release_example =
    hold_defers_release (run (empty small) deferred) 0 1 once_held
      (run-IsValid (empty small) deferred (empty-IsValid small)) refl refl

abbrev finished : List Call
finished = reserves 0 10 pending ∷ requests_release 0 ∷ []

finished-IsValid : IsValid (run (empty small) finished)
finished-IsValid = run-IsValid (empty small) finished (empty-IsValid small)
