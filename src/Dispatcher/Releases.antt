-- ===== src/Dispatcher/Releases.antt =====
-- inbound-queue.ts: the reservations in use, when a turn runs, work is cleared and all is disposed.
use openclaw_webchannel.Common.{
  ℕ, ◌≡◌, ◌⊎◌, refl, sym, subst, ◌∙◌, inl, inr, Bool, true, false, Option, none, some, List, [],
  ◌∷◌, ◌++◌, Text, text_Eq, arith, nat_Eq, lookup, ◌==◌, if◌then◌else◌, maybe_lem, if_lem,
}
use openclaw_webchannel.Retention.{Budget}
use openclaw_webchannel.Retention.Valid.{IsValid}
use openclaw_webchannel.Retention.InUse.{InUse}
use openclaw_webchannel.Dispatcher.{
  Lease, Session, Dispatcher, Turn, queued, handling, is_some, put, or_new, release_all,
  new_session,
}
use openclaw_webchannel.Dispatcher.Turns.{
  clear_pending, dispose, run_turn, run_orphan, call_handler, live_entries, empty_leases,
  release_sessions,
}
use openclaw_webchannel.Dispatcher.Holdings.{
  Holds, Passes, holds_entries, live_carries, release_all_in_use, release_all-IsValid, same-Passes,
  release-Passes,
}
use openclaw_webchannel.Dispatcher.Leaks.{HasIds, IsTight, Keeps, Passes-Keeps, put-IsTight, no_ids}
use openclaw_webchannel.Dispatcher.Offers.{FirstTight}

pub none_held : (M : Type 0) (i : ℕ) → Holds (new_session {M = M}) i → ⊥
unfolding lookup
none_held M i (inl c) = c
none_held M i (inr (id, c)) = c

module _ {M : Type 0} where
  -- A session in its place, and one that its step makes of it.
  pub found-IsTight :
      (d : Dispatcher M) (key : Text) (s : Session M) (b : Budget) (s' : Session M)
      → IsTight d
      → lookup key d.sessions ≡ some s
      → Passes d.budget s b s'
      → (HasIds d.next_lease s → HasIds d.next_lease s')
      → IsTight (put d key b s')
  found-IsTight d key s b s' v found p h =
      let old : HasIds d.next_lease s =
        subst (λ o. HasIds d.next_lease (or_new o)) found (v.fresh key) in
      put-IsTight d key b s' v
        (subst (λ o. Keeps d (or_new o) b s') (sym found) (Passes-Keeps d s b s' p (h old)))

  pub call_handler-IsTight :
      (d : Dispatcher M) (key : Text) (s : Session M) (turn : Option (Turn M))
      → IsTight d
      → lookup key d.sessions ≡ some s
      → IsTight (call_handler d key s turn).0
  call_handler-IsTight d key s none v found = v
  call_handler-IsTight d key s (some handling) v found = v
  call_handler-IsTight d key s (some (queued m)) v found =
      let s' = record s { running = some handling } in
      found-IsTight d key s d.budget s' v found (same-Passes d.budget s s' v.valid (λ i c. c))
        (λ h. h)

  run_orphan-IsTight :
      (d : Dispatcher M) (key : Text) (o : Option M) → IsTight d → IsTight (run_orphan d key o).0
  run_orphan-IsTight d key none v = v
  run_orphan-IsTight d key (some m) v = record {
    valid = v.valid;
    covered = v.covered;
    fresh = v.fresh;
  }

  pub run_turn-IsTight : (d : Dispatcher M) (key : Text) → IsTight d → IsTight (run_turn d key).0
  unfolding run_turn
  run_turn-IsTight d key v =
      maybe_lem (FirstTight {B = Option M}) _ _ _
        (λ e. run_orphan-IsTight d key (lookup key d.orphans) v)
        λ s found. call_handler-IsTight d key s s.running v found

  pub empty_leases-ids :
      (m : List (ℕ × Lease M)) (id : ℕ)
      → is_some (lookup id (empty_leases m)) ≡ is_some (lookup id m)
  unfolding lookup
  empty_leases-ids [] id = refl
  empty_leases-ids ((j, l) ∷ m) id = ground (arith, empty_leases-ids m id)

  pub clear_pending-IsTight :
      (d : Dispatcher M) (key : Text) → IsTight d → IsTight (clear_pending d key).0
  unfolding clear_pending
  clear_pending-IsTight d key v =
      maybe_lem (FirstTight {B = List M}) _ _ _ (λ e. v)
        λ s found.
          found-IsTight d key s _
            (record s { pending = []; open_leases = empty_leases s.open_leases }) v found
            (release-Passes d.budget s _ (s.pending ++ live_entries s.open_leases) v.valid
              (λ i out h. absurd (out (holds_entries s i h))))
            (λ h id there. h id (sym (empty_leases-ids s.open_leases id) ∙ there))

  pub session_head :
      (here : Bool) (s : Session M) (o : Option (Session M)) (i : ℕ)
      → Holds (or_new (if here then some s else o)) i
      → Holds s i ⊎ Holds (or_new o) i
  session_head true s o i h = inl h
  session_head false s o i h = inr h

  -- After a release of every session's entries, nothing in use is held by one.
  pub release_sessions_in_use :
      (b : Budget) (ss : List (Text × Session M)) (i : ℕ)
      → IsValid b
      → InUse (release_sessions b ss) i
      → InUse b i × ((key : Text) → Holds (or_new (lookup key ss)) i → ⊥)
  unfolding release_sessions lookup
  release_sessions_in_use b [] i v u = (u, λ key h. none_held M i h)
  release_sessions_in_use b ((k, s) ∷ ss) i v u =
      let b1 = release_all b s.pending in
      let v1 = release_all-IsValid b s.pending v in
      let b2 = release_all b1 (live_entries s.open_leases) in
      let v2 = release_all-IsValid b1 (live_entries s.open_leases) v1 in
      let rest = release_sessions_in_use b2 ss i v2 u in
      let leased = release_all_in_use b1 (live_entries s.open_leases) i v1 rest.0 in
      let queued_ones = release_all_in_use b s.pending i v leased.0 in
      let mine : Holds s i → ⊥ = λ h. elim h [
        | inl c ↦ queued_ones.1 c
        | inr (id, c) ↦ leased.1 (live_carries s.open_leases i id c)
      ] in
      (
        queued_ones.0,
        λ key h. elim (session_head (k == key) s (lookup key ss) i h) [
          | inl c ↦ mine c
          | inr c ↦ rest.1 key c
        ],
      )

  pub release_sessions-IsValid :
      (b : Budget) (ss : List (Text × Session M)) → IsValid b → IsValid (release_sessions b ss)
  unfolding release_sessions
  release_sessions-IsValid b [] v = v
  release_sessions-IsValid b ((k, s) ∷ ss) v =
      let v1 = release_all-IsValid b s.pending v in
      release_sessions-IsValid (release_all (release_all b s.pending) (live_entries s.open_leases))
        ss (release_all-IsValid (release_all b s.pending) (live_entries s.open_leases) v1)

  pub dispose-IsTight : (d : Dispatcher M) → IsTight d → IsTight (dispose d).0
  unfolding dispose lookup
  dispose-IsTight d v =
      if_lem (FirstTight {B = ℕ × ℕ}) d.disposed _ _ (λ e. v)
        λ e. record {
          valid = release_sessions-IsValid d.budget d.sessions v.valid;
          covered = λ i u.
              let released = release_sessions_in_use d.budget d.sessions i v.valid u in
              let held = v.covered i released.0 in absurd (released.1 held.0 held.1);
          fresh = λ read. no_ids M d.next_lease;
        }
