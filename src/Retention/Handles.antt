-- ===== src/Retention/Handles.antt =====
-- inbound-retention.ts: the operations on a handle, and the accounting invariant.
use openclaw_webchannel.Common.{
  ℕ, suc, ◌-◌, ◌≡◌, refl, sym, inl, inr, Bool, true, false, ◌||◌, ◌&&◌, List, [], ◌∷◌, ◌++◌, some,
  ◌==◌, leb, if◌then◌else◌, arith, nat_Eq, subst, not, get_elem?, set, sum_by, le-sum_by,
  sum_by-append, sum_by-set, All-get, All-set, Bool-cases,
}
use openclaw_webchannel.Retention.{
  Reservation, Budget, Error, ok, throw, ◌>>=◌, session_state, hold_with, settle_hold, unhold_with,
  begin_release,
}
use openclaw_webchannel.Retention.Tally.{set-Tallies}
use openclaw_webchannel.Retention.Valid.{live, live_in, flag, IsSound, IsValid}
use openclaw_webchannel.Retention.Steps.{Keeps, Keeps-if}
use openclaw_webchannel.Retention.Release.{finalize_release-IsValid}

module _ (b : Budget) (i : ℕ) (r : Reservation) (at : get_elem? b.reservations i ≡ some r)
    (v : IsValid b) where
  sound : IsSound r
  sound = All-get IsSound b.reservations i r v.handles at

  -- New flags of a reservation that stays as released as it was.
  pub flags-IsValid :
      (q : Bool) (n : ℕ) (flags : List Bool)
      → IsSound (record r { release_requested = q; holds = n; active = flags })
      → IsValid (record b {
        reservations =
            set b.reservations i (record r { release_requested = q; holds = n; active = flags });
      })
  unfolding session_state
  flags-IsValid q n flags h = record {
    process = set-Tallies b.process live b.reservations i r _ at refl refl refl v.process;
    session = λ s.
        set-Tallies (session_state b s) (live_in s) b.reservations i r _ at refl refl refl
          (v.session s);
    handles = All-set IsSound b.reservations i _ v.handles h;
    occupied = v.occupied;
    process_fits = v.process_fits;
    session_fits = v.session_fits;
  }

  pub hold_with-Keeps : Keeps (hold_with b i r >>= λ p. ok p.0)
  unfolding hold_with
  hold_with-Keeps = elim (Bool-cases (r.released || r.release_requested)) [
    | inl e ↦ rw e tt
    | inr e ↦ rw e (
        flags-IsValid r.release_requested (suc r.holds) (r.active ++ true ∷ []) (record {
          counted = ground (arith, sum_by-append flag r.active (true ∷ []), sound.counted);
          waits = ground (arith, sound.waits);
        }))
  ]

  -- A release that is due frees the charge; otherwise only flags change.
  begin_release-Keeps :
      r.released ≡ false → r.release_requested ≡ false → Keeps (begin_release b i r)
  unfolding begin_release
  begin_release-Keeps alive unasked =
      Keeps-if (r.holds == 0) _ _
        (λ z.
          let fin =
            finalize_release-IsValid b i r at v alive true r.holds r.active
              (record { counted = sound.counted; waits = sym z }) in
          subst Keeps (sym fin.1) fin.2)
        (λ z.
          flags-IsValid true r.holds r.active
            (record { counted = sound.counted; waits = ground arith }))

  pub request_release_with-Keeps :
      Keeps (if r.release_requested then ok b else if r.released then ok b else begin_release b i r)
  request_release_with-Keeps =
      Keeps-if r.release_requested _ _ (λ e. v)
        (λ e. Keeps-if r.released _ _ (λ d. v) (λ alive. begin_release-Keeps alive e))

  pub release_with-Keeps : Keeps (
      if r.released || r.release_requested then throw Error.released_twice else begin_release b i r)
  release_with-Keeps =
      Keeps-if (r.released || r.release_requested) _ _ (λ e. tt)
        (λ e. begin_release-Keeps (ground arith) (ground arith))

  settle_hold-Keeps :
      (n : ℕ) (flags : List Bool)
      → r.released ≡ false
      → n ≡ sum_by flag flags
      → r.holds ≡ suc n
      → Keeps (settle_hold b i (record r { holds = n; active = flags }))
  unfolding settle_hold
  settle_hold-Keeps n flags alive counted held =
      Keeps-if (n == 0 && r.release_requested && not r.released) _ _
        (λ due.
          let fin =
            finalize_release-IsValid b i r at v alive r.release_requested n flags
              (record { counted = counted; waits = ground arith }) in
          subst Keeps (sym fin.1) fin.2)
        (λ more.
          flags-IsValid r.release_requested n flags
            (record { counted = counted; waits = ground arith }))

  -- A hold that ends frees the charge if it was the last one and a release waits for it.
  pub unhold_with-Keeps :
      (h : ℕ) (on : Bool) → get_elem? r.active h ≡ some on → Keeps (unhold_with b i h r on)
  unfolding unhold_with
  unhold_with-Keeps h false at' = v
  unhold_with-Keeps h true at' =
      let held = le-sum_by flag r.active h true at' in
      Keeps-if (leb 1 r.holds) _ _
        (λ _.
          settle_hold-Keeps (r.holds - 1) (set r.active h false) (ground (arith, held, sound))
            (omega (arith, sound.counted, sum_by-set flag r.active h false true at'))
            (omega (arith, sound.counted, held)))
        (λ e. ground (arith, sound.counted, held))
