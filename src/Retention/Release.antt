-- ===== src/Retention/Release.antt =====
-- inbound-retention.ts: the release that every handle ends in, and the accounting invariant.
use openclaw_webchannel.Common.{
  ℕ, ◌+◌, ◌<◌, ◌≡◌, ◌≢◌, ◌⊎◌, refl, subst, inl, inr, Bool, true, false, List, some, arith, nat_Eq,
  nat_eq_iff, get_elem?, set, le-sum_by, All-set, lookup,
}
use openclaw_webchannel.Retention.{
  SessionState, Reservation, Budget, ok, zero_state, or_zero, session_state, put_session, uncharge,
  finalize_release,
}
use openclaw_webchannel.Retention.Tally.{share, one, Tallies, set-Tallies, uncharge-Tallies}
use openclaw_webchannel.Retention.Valid.{
  live, live_in, IsSound, FitsSession, IsValid, zero-Tallies, zero_bytes, lookup-put_session,
  uncharge_parts,
}

-- The state of each session once `put_session` has run.
state_after :
    (s j : ℕ) (st : SessionState) (m : List (ℕ × SessionState))
    → (or_zero (lookup j (put_session s st m)) ≡ or_zero (lookup j m)) × (s ≢ j)
      ⊎ (s ≡ j)
        × ((or_zero (lookup j (put_session s st m)) ≡ st)
            ⊎ (or_zero (lookup j (put_session s st m)) ≡ zero_state) × (st.usage.messages ≡ 0))
state_after s j st m = ground (arith, lookup-put_session s j st m, nat_eq_iff s j)

module _ (b : Budget) (i : ℕ) (r : Reservation) (at : get_elem? b.reservations i ≡ some r) where
  -- The session of a live reservation is remembered.
  pub session_present :
      IsValid b
      → r.released ≡ false
      → (st : SessionState) × (lookup r.token b.sessions ≡ some st) × (session_state b r.token ≡ st)
  unfolding session_state
  session_present v alive = ground (
    arith,
    (v.session r.token).messages,
    le-sum_by (share one (live_in r.token)) b.reservations i r at,
    nat_eq_iff r.token r.token,
  )

  module _ (v : IsValid b) (alive : r.released ≡ false) (r' : Reservation)
      (token : r'.token ≡ r.token) (owner : r'.owner ≡ r.owner)
      (bytes : r'.charged_bytes ≡ r.charged_bytes) (dropped : r'.released ≡ true)
      (st' : SessionState)
      (uncharged : uncharge (session_state b r.token) r.owner r.charged_bytes ≡ ok st')
      (counted : Tallies st' (live_in r.token) (set b.reservations i r')) where
    -- Every session still counts its live reservations.
    release_session :
        (s : ℕ)
        → Tallies
            (or_zero (lookup s (put_session r.token st' b.sessions)))
            (live_in s)
            (set b.reservations i r')
    unfolding session_state
    release_session s = elim (state_after r.token s st' b.sessions) [
      | inl (kept, other) ↦ rw kept (
          set-Tallies (session_state b s) (live_in s) b.reservations i r r' at
            (ground (arith, nat_eq_iff r.token s)) owner bytes (v.session s))
      | inr (e, inl new) ↦
          rw new (subst (λ k. Tallies st' (live_in k) (set b.reservations i r')) e counted)
      | inr (e, inr (gone, z)) ↦ rw gone (
          zero-Tallies st' (live_in s) _ z
            (subst (λ k. Tallies st' (live_in k) (set b.reservations i r')) e counted))
    ]

    release_occupied :
        (s : ℕ) (t : SessionState)
        → lookup s (put_session r.token st' b.sessions) ≡ some t
        → 0 < t.usage.messages
    release_occupied s t found = ground (
      arith,
      lookup-put_session r.token s st' b.sessions,
      zero_bytes st' (live_in r.token) (set b.reservations i r') counted,
      v.occupied s t,
    )

    release_fits :
        (s : ℕ)
        → FitsSession b.limits (or_zero (lookup s (put_session r.token st' b.sessions))).usage
    unfolding session_state
    release_fits s = elim (state_after r.token s st' b.sessions) [
      | inl (kept, other) ↦ rw kept (v.session_fits s)
      | inr (e, inl new) ↦
          ground (
            arith,
            v.session_fits r.token,
            uncharge_parts (session_state b r.token) r st' uncharged,
          )
      | inr (e, inr (gone, z)) ↦ ground arith
    ]

  -- A live reservation is finalised without an error: its charge leaves the process and its
  -- session, and no other reservation changes.
  module _ (v : IsValid b) (alive : r.released ≡ false) (q : Bool) (n : ℕ) (flags : List Bool) where
    abbrev pub flagged : Reservation
    flagged = record r { release_requested = q; holds = n; active = flags }

    abbrev pub finalized : Reservation
    finalized = record flagged { released = true }

    pub finalize_release-IsValid :
        IsSound finalized
        → (b' : Budget) × (finalize_release b i flagged ≡ ok b')
          × IsValid b'
          × (b'.reservations ≡ set b.reservations i finalized)
          × (b'.limits ≡ b.limits)
          × (b'.process.usage.messages + 1 ≡ b.process.usage.messages)
          × (b'.process.usage.bytes + r.charged_bytes ≡ b.process.usage.bytes)
    unfolding finalize_release session_state
    finalize_release-IsValid sound =
        let (st, found, here) = session_present v alive in
        let (st', e, t) =
          uncharge-Tallies (session_state b r.token) (live_in r.token) b.reservations i r finalized
            at (ground (arith, nat_eq_iff r.token r.token)) refl (v.session r.token) in
        let (total, e', t') =
          uncharge-Tallies b.process live b.reservations i r finalized at (ground arith) refl
            v.process in
        (
          record b {
            sessions = put_session r.token st' b.sessions;
            process = total;
            reservations = set b.reservations i finalized;
          },
          ground arith,
          record {
            process = t';
            session = release_session v alive finalized refl refl refl refl st' e t;
            handles = All-set IsSound b.reservations i finalized v.handles sound;
            occupied = release_occupied v alive finalized refl refl refl refl st' e t;
            process_fits = ground (arith, uncharge_parts b.process r total e', v.process_fits);
            session_fits = release_fits v alive finalized refl refl refl refl st' e t;
          },
          refl,
          refl,
          (uncharge_parts b.process r total e').0,
          (uncharge_parts b.process r total e').1,
        )
