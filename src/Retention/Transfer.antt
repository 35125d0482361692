-- ===== src/Retention/Transfer.antt =====
-- inbound-retention.ts: a transfer between owners, and the accounting invariant.
use openclaw_webchannel.Common.{
  ℕ, ◌<◌, ◌≡◌, ◌≢◌, ◌⊎◌, refl, inl, inr, false, ◌||◌, some, arith, nat_Eq, nat_eq_iff,
  lookup-insert, lookup, insert, subst, get_elem?, set, All-get, All-set,
}
use openclaw_webchannel.Retention.{
  RetentionOwner, SessionState, Reservation, Budget, Error, ok, or_throw, ◌>>=◌, session_state,
  transfer_with, owner_eq, move_row,
}
use openclaw_webchannel.Retention.Tally.{Tallies, move_row-Tallies, skip-Tallies}
use openclaw_webchannel.Retention.Valid.{live, live_in, IsSound, IsValid}
use openclaw_webchannel.Retention.Steps.{Keeps, Keeps-if}
use openclaw_webchannel.Retention.Release.{session_present}

move_row_usage :
    (st : SessionState) (r : Reservation) (next : RetentionOwner) (st' : SessionState)
    → move_row st r.owner next r.charged_bytes ≡ ok st'
    → st'.usage ≡ st.usage
unfolding move_row
move_row_usage st r next st' h = ground arith

module _ (b : Budget) (i : ℕ) (r : Reservation) (at : get_elem? b.reservations i ≡ some r)
    (v : IsValid b) (next : RetentionOwner) where
  abbrev moved : Reservation
  moved = record r { owner = next }

  abbrev after_transfer : SessionState → SessionState → Budget
  after_transfer own total = record b {
    sessions = insert r.token own b.sessions;
    process = total;
    reservations = set b.reservations i moved;
  }

  session_after :
      (own total : SessionState) (s : ℕ)
      → (session_state (after_transfer own total) s ≡ session_state b s) × (r.token ≢ s)
        ⊎ (session_state (after_transfer own total) s ≡ own) × (r.token ≡ s)
  unfolding session_state
  session_after own total s =
      ground (arith, lookup-insert r.token s own b.sessions, nat_eq_iff r.token s)

  moved-IsValid :
      (own total : SessionState)
      → Tallies own (live_in r.token) (set b.reservations i moved)
      → Tallies total live (set b.reservations i moved)
      → own.usage ≡ (session_state b r.token).usage
      → total.usage ≡ b.process.usage
      → 0 < own.usage.messages
      → IsValid (after_transfer own total)
  moved-IsValid own total t t' e e' pos = record {
    process = t';
    session = λ s. elim (session_after own total s) [
      | inl (kept, other) ↦ rw kept (
          skip-Tallies (session_state b s) (live_in s) b.reservations i r moved at
            (ground (arith, nat_eq_iff r.token s)) (ground (arith, nat_eq_iff r.token s))
            (v.session s))
      | inr (new, same) ↦
          rw new (subst (λ k. Tallies own (live_in k) (set b.reservations i moved)) same t)
    ];
    handles = All-set IsSound b.reservations i moved v.handles (record {
      counted = (All-get IsSound b.reservations i r v.handles at).counted;
      waits = (All-get IsSound b.reservations i r v.handles at).waits;
    });
    occupied = λ s t f. ground (arith, lookup-insert r.token s own b.sessions, v.occupied s t);
    process_fits = rw e' v.process_fits;
    session_fits = λ s. elim (session_after own total s) [
      | inl (kept, other) ↦ rw kept (v.session_fits s)
      | inr (new, same) ↦ rw (new, e) (v.session_fits r.token)
    ];
  }

  -- It changes rows only, in the process and in the session.
  transfer_live-Keeps :
      r.released ≡ false
      → owner_eq next r.owner ≡ false
      → Keeps (do
        st ← or_throw (lookup r.token b.sessions) Error.no_session_usage
        st' ← move_row st r.owner next r.charged_bytes
        total ← move_row b.process r.owner next r.charged_bytes
        ok (after_transfer st' total))
  transfer_live-Keeps alive ne =
      let (st, found, here) = session_present b i r at v alive in
      let own =
        move_row-Tallies (session_state b r.token) (live_in r.token) b.reservations i r moved at
          next (ground (arith, nat_eq_iff r.token r.token))
          (ground (arith, nat_eq_iff r.token r.token)) refl refl ne (v.session r.token) in
      let all =
        move_row-Tallies b.process live b.reservations i r moved at next (ground arith)
          (ground arith) refl refl ne v.process in
      let own_usage = move_row_usage (session_state b r.token) r next own.0 own.1 in
      simp (found, ← here, own.1, all.1)
        (moved-IsValid own.0 all.0 own.2 all.2 own_usage
          (move_row_usage b.process r next all.0 all.1)
          (ground (arith, own_usage, v.occupied r.token st found)))

  pub transfer_with-Keeps : Keeps (transfer_with b i next r)
  unfolding transfer_with
  transfer_with-Keeps =
      Keeps-if (r.released || r.release_requested) _ _ (λ e. tt)
        (λ e.
          Keeps-if (owner_eq next r.owner) _ _ (λ _. v)
            (λ ne. transfer_live-Keeps (ground arith) ne))
