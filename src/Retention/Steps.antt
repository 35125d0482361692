-- ===== src/Retention/Steps.antt =====
-- inbound-retention.ts: each operation, the accounting invariant and the errors thrown.
use openclaw_webchannel.Common.{
  ℕ, ◌+◌, ◌<◌, ◌≡◌, ◌≢◌, ◌⊎◌, refl, inl, Bool, true, false, if◌then◌else◌, inr, [], ◌∷◌, ◌++◌, some,
  none, arith, nat_Eq, nat_eq_iff, lookup-insert, lookup, All-append,
}
use openclaw_webchannel.Retention.{
  RetentionOwner, SessionState, Budget, Error, Result, ok, throw, session_state, limit_reason,
  admit, fresh, charge,
}
use openclaw_webchannel.Retention.Tally.{Tallies, charge-Tallies, append-Tallies}
use openclaw_webchannel.Retention.Valid.{live, live_in, IsSound, IsValid, FitsSession}

-- The errors that a caller brings about; the others would be a defect of the accounting.
abbrev pub IsCallerError : Error → Type 0
IsCallerError Error.no_session_usage = ⊥
IsCallerError Error.usage_underflow = ⊥
IsCallerError Error.hold_underflow = ⊥
IsCallerError _ = Unit

-- A valid budget, or an error of the caller.
abbrev pub Keeps : Result Budget → Type 0
Keeps (ok b) = IsValid b
Keeps (throw e) = IsCallerError e

pub Keeps-if :
    (c : Bool) (x y : Result Budget)
    → (c ≡ true → Keeps x)
    → (c ≡ false → Keeps y)
    → Keeps (if c then x else y)
Keeps-if true x y f g = f refl
Keeps-if false x y f g = g refl

-- Memory that the invariant does not read.
pub session_state-admit :
    (b : Budget) (s c : ℕ) (o : RetentionOwner) (j : ℕ)
    → (session_state (admit b s c o) j ≡ session_state b j) × (s ≢ j)
      ⊎ (session_state (admit b s c o) j ≡ charge (session_state b s) o c) × (s ≡ j)
unfolding session_state admit
session_state-admit b s c o j =
    ground (arith, lookup-insert s j (charge (session_state b s) o c) b.sessions, nat_eq_iff s j)

charge_parts :
    (st : SessionState) (o : RetentionOwner) (c : ℕ)
    → ((charge st o c).usage.messages ≡ st.usage.messages + 1)
      × ((charge st o c).usage.bytes ≡ st.usage.bytes + c)
unfolding charge
charge_parts st o c = (refl, refl)

module _ (b : Budget) (s c : ℕ) (o : RetentionOwner) (v : IsValid b)
    (room : limit_reason b.limits (session_state b s).usage b.process.usage c ≡ none) where
  admit_session :
      (j : ℕ)
      → Tallies (session_state (admit b s c o) j) (live_in j) (b.reservations ++ fresh s c o ∷ [])
  admit_session j = elim (session_state-admit b s c o j) [
    | inl (kept, other) ↦ rw kept (
        append-Tallies (session_state b j) (live_in j) b.reservations (fresh s c o)
          (ground (arith, nat_eq_iff s j)) (v.session j))
    | inr (new, e) ↦
        rw (new, ← e)
          (charge-Tallies (session_state b s) (live_in s) b.reservations (fresh s c o)
            (ground (arith, nat_eq_iff s s)) (v.session s))
  ]

  admit_occupied :
      (j : ℕ) (t : SessionState) → lookup j (admit b s c o).sessions ≡ some t → 0 < t.usage.messages
  unfolding admit
  admit_occupied j t found = ground (
    arith,
    lookup-insert s j (charge (session_state b s) o c) b.sessions,
    charge_parts (session_state b s) o c,
    v.occupied j t,
  )

  admit_fits : (j : ℕ) → FitsSession b.limits (session_state (admit b s c o) j).usage
  unfolding limit_reason
  admit_fits j = elim (session_state-admit b s c o j) [
    | inl (kept, other) ↦ rw kept (v.session_fits j)
    | inr (new, e) ↦ rw new (ground (arith, charge_parts (session_state b s) o c))
  ]

  -- A reservation within the four limits keeps them.
  pub admit-IsValid : IsValid (admit b s c o)
  unfolding admit limit_reason
  admit-IsValid = record {
    process = charge-Tallies b.process live b.reservations (fresh s c o) refl v.process;
    session = admit_session;
    handles =
        All-append IsSound b.reservations _ v.handles (record { counted = refl; waits = refl }, tt);
    occupied = admit_occupied;
    process_fits = ground (arith, charge_parts b.process o c, v.process_fits);
    session_fits = admit_fits;
  }
