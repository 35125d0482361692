-- ===== src/Retention/Valid.antt =====
-- The accounting invariant of the budget, and the release that every handle ends in.
use openclaw_webchannel.Common.{
  ℕ, ◌+◌, ◌≤◌, ◌<◌, ◌≡◌, refl, Bool, true, not, ◌&&◌, List, [], ◌∷◌, none, some, arith, ◌==◌,
  nat_Eq, if◌then◌else◌, sum_by, All, lookup, lookup-insert, lookup-erase,
}
use openclaw_webchannel.Retention.{
  SessionState, BusyTurnLimits, RetentionUsage, Reservation, Budget, ok, zero_state, session_state,
  put_session, uncharge,
}
use openclaw_webchannel.Retention.Tally.{share, one, charged, owned, Tallies}

abbrev pub live : Reservation → Bool
live r = not r.released

abbrev pub live_in : ℕ → Reservation → Bool
live_in s r = not r.released && (r.token == s)

abbrev pub flag : Bool → ℕ
flag h = if h then 1 else 0

-- `holds` counts the active holds, and a requested release waits exactly while there is one.
pub record IsSound (r : Reservation) : Type 0 where
  pub counted : r.holds ≡ sum_by flag r.active
  pub waits : r.released ≡ r.release_requested && (r.holds == 0)

pub record Fits (u : RetentionUsage) (most_messages most_bytes : ℕ) : Type 0 where
  pub messages_fit : u.messages ≤ most_messages
  pub bytes_fit : u.bytes ≤ most_bytes

abbrev pub FitsProcess : BusyTurnLimits → RetentionUsage → Type 0
FitsProcess l u = Fits u l.max_messages_per_process l.max_bytes_per_process

abbrev pub FitsSession : BusyTurnLimits → RetentionUsage → Type 0
FitsSession l u = Fits u l.max_messages_per_session l.max_bytes_per_session

-- The totals count the live reservations, a session is remembered only while it has one, and no
-- total passes its limit.
pub record IsValid (b : Budget) : Type 0 where
  pub process : Tallies b.process live b.reservations
  pub session : (s : ℕ) → Tallies (session_state b s) (live_in s) b.reservations
  pub handles : All IsSound b.reservations
  pub occupied : (s : ℕ) (st : SessionState) → lookup s b.sessions ≡ some st → 0 < st.usage.messages
  pub process_fits : FitsProcess b.limits b.process.usage
  pub session_fits : (s : ℕ) → FitsSession b.limits (session_state b s).usage

-- Where nothing is picked, no weight is.
sum_zero :
    (w : Reservation → ℕ) (p q : Reservation → Bool) (rs : List Reservation)
    → ((r : Reservation) → q r ≡ true → p r ≡ true)
    → sum_by (share one p) rs ≡ 0
    → sum_by (share w q) rs ≡ 0
sum_zero w p q [] imp h = refl
sum_zero w p q (r ∷ rs) imp h = ground (arith, imp r, sum_zero w p q rs imp)

pub zero-Tallies :
    (st : SessionState) (sel : Reservation → Bool) (rs : List Reservation)
    → st.usage.messages ≡ 0
    → Tallies st sel rs
    → Tallies zero_state sel rs
zero-Tallies st sel rs z t = record {
  messages = omega (arith, t.messages);
  bytes = ground (arith, sum_zero charged sel sel rs (λ r h. h), t.messages);
  row_messages =
      λ o. ground (arith, sum_zero one sel (owned sel o) rs (λ r h. ground arith), t.messages);
  row_bytes =
      λ o. ground (arith, sum_zero charged sel (owned sel o) rs (λ r h. ground arith), t.messages);
}

-- After a release the session's state is the new one, or forgotten.
pub lookup-put_session :
    (s j : ℕ) (st : SessionState) (m : List (ℕ × SessionState))
    → lookup j (put_session s st m) ≡ (
        if s == j
        then (if st.usage.messages == 0 && st.usage.bytes == 0 then none else some st)
        else lookup j m)
unfolding put_session
lookup-put_session s j st m = ground (arith, lookup-insert s j st m, lookup-erase s j m)

pub zero_bytes :
    (st : SessionState) (sel : Reservation → Bool) (rs : List Reservation)
    → Tallies st sel rs
    → st.usage.messages ≡ 0
    → st.usage.bytes ≡ 0
zero_bytes st sel rs t z = omega (arith, (zero-Tallies st sel rs z t).bytes, t.bytes)

pub uncharge_parts :
    (st : SessionState) (r : Reservation) (st' : SessionState)
    → uncharge st r.owner r.charged_bytes ≡ ok st'
    → (st'.usage.messages + 1 ≡ st.usage.messages)
      × (st'.usage.bytes + r.charged_bytes ≡ st.usage.bytes)
unfolding uncharge
uncharge_parts st r st' h = ground arith
