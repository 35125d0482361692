-- ===== src/Retention/Run.antt =====
-- Any sequence of calls on the budget.
use openclaw_webchannel.Common.{
  ℕ, ◌≤◌, ◌≢◌, ◌≡◌, ◌∙◌, subst, sum_by, refl, List, [], ◌∷◌, some, inl, inr, Option-cases,
  Bool-cases, leb, get_elem?, arith, lookup,
}
use openclaw_webchannel.Retention.{
  RetentionOwner, BusyTurnLimits, Reservation, Budget, Error, Result, ok, throw, ◌>>=◌, or_throw,
  empty, max_safe_integer, create_session_token, try_reserve, admit, settle_hold, begin_release,
  finalize_release, limit_reason, session_state, hold, unhold, transfer, request_release, release,
}
use openclaw_webchannel.Retention.Tally.{share, one, charged}
use openclaw_webchannel.Retention.Valid.{IsValid, live, live_in}
use openclaw_webchannel.Retention.Steps.{IsCallerError, Keeps, admit-IsValid}
use openclaw_webchannel.Retention.Handles.{
  hold_with-Keeps, unhold_with-Keeps, request_release_with-Keeps, release_with-Keeps,
}
use openclaw_webchannel.Retention.Transfer.{transfer_with-Keeps}

-- The calls that other code can make.
pub data Call : Type 0 where
  creates : Call
  reserves : ℕ → ℕ → RetentionOwner → Call
  holds : ℕ → Call
  unholds : ℕ → ℕ → Call
  transfers : ℕ → RetentionOwner → Call
  requests_release releases : ℕ → Call

unfoldable pub step : Budget → Call → Result Budget
step b creates = ok (create_session_token b).0
step b (reserves s c o) = try_reserve b s c o >>= λ p. ok p.0
step b (holds i) = hold b i >>= λ p. ok p.0
step b (unholds i h) = unhold b i h
step b (transfers i o) = transfer b i o
step b (requests_release i) = request_release b i
step b (releases i) = release b i

-- A call that throws does so before it changes anything.
abbrev pub after : Budget → Result Budget → Budget
after b (ok b') = b'
after b (throw e) = b

unfoldable pub run : Budget → List Call → Budget
run b [] = b
run b (c ∷ cs) = run (after b (step b c)) cs

at_handle :
    (b : Budget) (i : ℕ) (f : Reservation → Result Budget)
    → ((r : Reservation) → get_elem? b.reservations i ≡ some r → Keeps (f r))
    → Keeps (or_throw (get_elem? b.reservations i) Error.dangling >>= f)
at_handle b i f h = elim (Option-cases (get_elem? b.reservations i)) [
  | inl e ↦ rw e tt
  | inr (r, e) ↦ rw e (h r e)
]

try_reserve-Keeps :
    (b : Budget) (s c : ℕ) (o : RetentionOwner)
    → IsValid b
    → Keeps (try_reserve b s c o >>= λ p. ok p.0)
unfolding try_reserve
try_reserve-Keeps b s c o v = elim (Bool-cases (leb c max_safe_integer)) [
  | inl e ↦
      rw e
        (elim (Option-cases (limit_reason b.limits (session_state b s).usage b.process.usage c)) [
          | inl room ↦ rw room (admit-IsValid b s c o v room)
          | inr (reason, full) ↦ rw full v
        ])
  | inr e ↦ rw e tt
]

-- Every call on a valid budget leaves a valid budget, or throws an error of the caller: the
-- budget's own invariant errors never occur.
pub step-Keeps : (b : Budget) (c : Call) → IsValid b → Keeps (step b c)
unfolding step create_session_token session_state hold unhold transfer request_release release
step-Keeps b creates v = record {
  process = v.process;
  session = v.session;
  handles = v.handles;
  occupied = v.occupied;
  process_fits = v.process_fits;
  session_fits = v.session_fits;
}
step-Keeps b (reserves s c o) v = try_reserve-Keeps b s c o v
step-Keeps b (holds i) v = elim (Option-cases (get_elem? b.reservations i)) [
  | inl e ↦ rw e tt
  | inr (r, e) ↦ rw e (hold_with-Keeps b i r e v)
]
step-Keeps b (unholds i h) v = at_handle b i _ λ r at. elim (Option-cases (get_elem? r.active h)) [
  | inl e ↦ rw e tt
  | inr (on, e) ↦ rw e (unhold_with-Keeps b i r at v h on e)
]
step-Keeps b (transfers i o) v = at_handle b i _ λ r at. transfer_with-Keeps b i r at v o
step-Keeps b (requests_release i) v = at_handle b i _ λ r at. request_release_with-Keeps b i r at v
step-Keeps b (releases i) v = at_handle b i _ λ r at. release_with-Keeps b i r at v

pub after-IsValid : (b : Budget) (r : Result Budget) → IsValid b → Keeps r → IsValid (after b r)
after-IsValid b (ok b') v k = k
after-IsValid b (throw e) v k = v

pub run-IsValid : (b : Budget) (cs : List Call) → IsValid b → IsValid (run b cs)
unfolding run
run-IsValid b [] v = v
run-IsValid b (c ∷ cs) v =
    run-IsValid (after b (step b c)) cs (after-IsValid b (step b c) v (step-Keeps b c v))

pub empty-IsValid : (l : BusyTurnLimits) → IsValid (empty l)
unfolding session_state lookup
empty-IsValid l = record {
  process = record {
    messages = refl;
    bytes = refl;
    row_messages = λ o. refl;
    row_bytes = λ o. refl;
  };
  session = λ s. record {
    messages = refl;
    bytes = refl;
    row_messages = λ o. refl;
    row_bytes = λ o. refl;
  };
  handles = tt;
  occupied = λ s st e. cc;
  process_fits = omega arith;
  session_fits = λ s. omega arith;
}

step_limits : (b : Budget) (c : Call) → (after b (step b c)).limits ≡ b.limits
unfolding step create_session_token try_reserve admit hold unhold transfer request_release release
    begin_release settle_hold finalize_release
step_limits b creates = refl
step_limits b c = ground arith

caller_error :
    (e : Error)
    → IsCallerError e
    → (e ≢ Error.no_session_usage) × (e ≢ Error.usage_underflow) × (e ≢ Error.hold_underflow)
caller_error Error.no_session_usage h = absurd h
caller_error Error.usage_underflow h = absurd h
caller_error Error.hold_underflow h = absurd h
caller_error _ h = ground arith

run_limits : (b : Budget) (cs : List Call) → (run b cs).limits ≡ b.limits
unfolding run
run_limits b [] = refl
run_limits b (c ∷ cs) = run_limits (after b (step b c)) cs ∙ step_limits b c

-- After any calls on a new budget, the process and every session are within their message and
-- byte limits.
pub run_within_limits :
    (l : BusyTurnLimits) (cs : List Call) (s : ℕ)
    → let b = run (empty l) cs in
      (b.process.usage.messages ≤ l.max_messages_per_process)
      × (b.process.usage.bytes ≤ l.max_bytes_per_process)
      × ((session_state b s).usage.messages ≤ l.max_messages_per_session)
      × ((session_state b s).usage.bytes ≤ l.max_bytes_per_session)
run_within_limits l cs s =
    let v = run-IsValid (empty l) cs (empty-IsValid l) in
    let e = run_limits (empty l) cs in ground (arith, v.process_fits, v.session_fits s)

-- After any calls on a new budget, the totals are exactly the number and the bytes of the
-- reservations not yet released, in the process and in each session.
pub run_accounting :
    (l : BusyTurnLimits) (cs : List Call) (s : ℕ)
    → let b = run (empty l) cs in
      (b.process.usage.messages ≡ sum_by (share one live) b.reservations)
      × (b.process.usage.bytes ≡ sum_by (share charged live) b.reservations)
      × ((session_state b s).usage.messages ≡ sum_by (share one (live_in s)) b.reservations)
      × ((session_state b s).usage.bytes ≡ sum_by (share charged (live_in s)) b.reservations)
run_accounting l cs s =
    let v = run-IsValid (empty l) cs (empty-IsValid l) in
    let t = v.session s in (v.process.messages, v.process.bytes, t.messages, t.bytes)

-- After any calls on a new budget, no call throws one of the budget's invariant errors.
pub run_never_corrupt :
    (l : BusyTurnLimits) (cs : List Call) (c : Call) (e : Error)
    → step (run (empty l) cs) c ≡ throw e
    → (e ≢ Error.no_session_usage) × (e ≢ Error.usage_underflow) × (e ≢ Error.hold_underflow)
run_never_corrupt l cs c e h =
    caller_error e
      (subst Keeps h (step-Keeps (run (empty l) cs) c (run-IsValid (empty l) cs (empty-IsValid l))))
