-- ===== src/Dispatcher/Holdings.antt =====
-- inbound-queue.ts: the reservations that a session of the dispatcher holds.
use openclaw_webchannel.Common.{
  ℕ, ◌≡◌, ◌⊎◌, refl, sym, subst, inl, inr, Bool, true, false, not, ◌&&◌, ◌||◌, Option, none, some,
  List, [], ◌∷◌, ◌++◌, arith, nat_Eq, lookup, if◌then◌else◌, maybe, if_lem, Bool-cases, ◌==◌,
  lookup-erase, ◌∙◌, nat_eq_iff, keep, erase,
}
use openclaw_webchannel.Retention.{Budget}
use openclaw_webchannel.Retention.Valid.{IsValid}
use openclaw_webchannel.Retention.InUse.{InUse, released_in_use, request_release-IsValid}
use openclaw_webchannel.Dispatcher.{
  Entry, EntryState, Lease, Session, is_empty, is_some, is_live, is_idle, release_all,
  release_handle, queued, messages,
}
use openclaw_webchannel.Dispatcher.Turns.{
  start_turn, drain, attach, is_provisional, live_entries, finish_drain, settled_session,
  without_lease,
}

module _ {M : Type 0} where
  abbrev pub Carries : ℕ → List (Entry M) → Type 0
  Carries i [] = ⊥
  Carries i (e ∷ es) = (i ≡ e.reservation) ⊎ Carries i es

  pub carries_left : (i : ℕ) (es fs : List (Entry M)) → Carries i es → Carries i (es ++ fs)
  carries_left i [] fs h = absurd h
  carries_left i (e ∷ es) fs (inl h) = inl h
  carries_left i (e ∷ es) fs (inr h) = inr (carries_left i es fs h)

  pub carries_right : (i : ℕ) (es fs : List (Entry M)) → Carries i fs → Carries i (es ++ fs)
  carries_right i [] fs h = h
  carries_right i (e ∷ es) fs h = inr (carries_right i es fs h)

  -- What stays in use after a release of all was in use, and none of them.
  pub release_all_in_use :
      (b : Budget) (es : List (Entry M)) (i : ℕ)
      → IsValid b
      → InUse (release_all b es) i
      → InUse b i × (Carries i es → ⊥)
  unfolding release_all release_handle
  release_all_in_use b [] i v u = (u, λ h. h)
  release_all_in_use b (e ∷ es) i v u =
      let b' = release_handle b e.reservation in
      let rest = release_all_in_use b' es i (request_release-IsValid b e.reservation v) u in
      let first = released_in_use b e.reservation i v rest.0 in
      (first.0, λ h. elim h [ inl same ↦ first.1 same | inr later ↦ rest.1 later ])

  pub release_all-IsValid :
      (b : Budget) (es : List (Entry M)) → IsValid b → IsValid (release_all b es)
  unfolding release_all release_handle
  release_all-IsValid b [] v = v
  release_all-IsValid b (e ∷ es) v =
      release_all-IsValid (release_handle b e.reservation) es
        (request_release-IsValid b e.reservation v)

  abbrev pub LeaseCarries : ℕ → Option (Lease M) → Type 0
  LeaseCarries i none = ⊥
  LeaseCarries i (some l) = Carries i (keep is_live l.entries)

  abbrev pub HoldsLease : Session M → ℕ → Type 0
  HoldsLease s i = (id : ℕ) × LeaseCarries i (lookup id s.open_leases)

  abbrev pub Holds : Session M → ℕ → Type 0
  Holds s i = Carries i s.pending ⊎ HoldsLease s i

  carries_nonempty : (i : ℕ) (es : List (Entry M)) → Carries i es → is_empty es ≡ false
  carries_nonempty i [] h = absurd h
  carries_nonempty i (e ∷ es) h = refl

  lease_nonempty :
      (m : List (ℕ × Lease M)) (i id : ℕ) → LeaseCarries i (lookup id m) → is_empty m ≡ false
  unfolding lookup
  lease_nonempty [] i id h = absurd h
  lease_nonempty (x ∷ m) i id h = refl

  pub busy_lem : (s : Session M) (i : ℕ) → Holds s i → is_idle s ≡ false
  unfolding is_idle
  busy_lem s i (inl h) = ground (arith, carries_nonempty i s.pending h)
  busy_lem s i (inr (id, h)) = ground (arith, lease_nonempty s.open_leases i id h)

  -- A change of a session and the budget that forgets no reservation in use.
  pub record Passes (b : Budget) (s : Session M) (b' : Budget) (s' : Session M) : Type 0 where
    pub valid : IsValid b'
    pub before : (i : ℕ) → InUse b' i → InUse b i
    pub holds : (i : ℕ) → InUse b' i → Holds s i → Holds s' i

  abbrev entry : M → ℕ → EntryState → Entry M
  entry m r st = record { message = m; reservation = r; state = st }

  -- An entry that is not rolled back is rolled back by `finish`, or moves to the queue.
  attach_one :
      (i : ℕ) (m : M) (r : ℕ) (st : EntryState) (es : List (Entry M))
      → (Carries i (keep is_provisional (entry m r st ∷ es)) → ⊥)
      → ((Carries i (keep is_provisional es) → ⊥)
          → Carries i (keep is_live es)
          → Carries i (attach es))
      → Carries i (keep is_live (entry m r st ∷ es))
      → Carries i (attach (entry m r st ∷ es))
  unfolding attach is_provisional
  attach_one i m r EntryState.provisional es h later (inl same) = absurd (h (inl same))
  attach_one i m r EntryState.provisional es h later (inr c) = later (λ p. h (inr p)) c
  attach_one i m r EntryState.committed es h later (inl same) = inl same
  attach_one i m r EntryState.committed es h later (inr c) = inr (later h c)
  attach_one i m r EntryState.rolled_back es h later c = later h c
  attach_one i m r EntryState.attached es h later c = later h c

  attach_carries :
      (i : ℕ) (es : List (Entry M))
      → (Carries i (keep is_provisional es) → ⊥)
      → Carries i (keep is_live es)
      → Carries i (attach es)
  unfolding attach
  attach_carries i [] h c = c
  attach_carries i (e ∷ es) h c =
      attach_one i e.message e.reservation e.state es h (attach_carries i es) c

  -- A release of entries passes on what else the session holds.
  pub release-Passes :
      (b : Budget) (s s' : Session M) (es : List (Entry M))
      → IsValid b
      → ((i : ℕ) → (Carries i es → ⊥) → Holds s i → Holds s' i)
      → Passes b s (release_all b es) s'
  release-Passes b s s' es v h = record {
    valid = release_all-IsValid b es v;
    before = λ i u. (release_all_in_use b es i v u).0;
    holds = λ i u. h i (release_all_in_use b es i v u).1;
  }

  pub same-Passes :
      (b : Budget) (s s' : Session M)
      → IsValid b
      → ((i : ℕ) → Holds s i → Holds s' i)
      → Passes b s b s'
  same-Passes b s s' v h = record { valid = v; before = λ i u. u; holds = λ i u. h i }

  pub Passes-trans :
      (b : Budget) (s : Session M) (b' : Budget) (s' : Session M) (b'' : Budget) (s'' : Session M)
      → Passes b s b' s'
      → Passes b' s' b'' s''
      → Passes b s b'' s''
  Passes-trans b s b' s' b'' s'' p q = record {
    valid = q.valid;
    before = λ i u. p.before i (q.before i u);
    holds = λ i u h. q.holds i u (p.holds i (q.before i u) h);
  }

  first_lease :
      (here : Bool) (k : Lease M) (m : List (ℕ × Lease M)) (i id : ℕ)
      → LeaseCarries i (if here then some k else lookup id m)
      → (LeaseCarries i (lookup id m) → Carries i (live_entries m))
      → Carries i (keep is_live k.entries ++ live_entries m)
  first_lease true k m i id c later = carries_left i (keep is_live k.entries) (live_entries m) c
  first_lease false k m i id c later =
      carries_right i (keep is_live k.entries) (live_entries m) (later c)

  pub live_carries :
      (m : List (ℕ × Lease M)) (i id : ℕ)
      → LeaseCarries i (lookup id m)
      → Carries i (live_entries m)
  unfolding lookup
  live_carries [] i id c = absurd c
  live_carries ((j, k) ∷ m) i id c = first_lease (j == id) k m i id c (live_carries m i id)

  pub holds_entries :
      (s : Session M) (i : ℕ) → Holds s i → Carries i (s.pending ++ live_entries s.open_leases)
  holds_entries s i (inl c) = carries_left i s.pending (live_entries s.open_leases) c
  holds_entries s i (inr (id, c)) =
      carries_right i s.pending (live_entries s.open_leases) (live_carries s.open_leases i id c)

abbrev PassesOn : {M : Type 0} → Budget → Session M → Budget × Session M → Type 0
PassesOn b s p = Passes b s p.0 p.1

module _ {M : Type 0} (coalesce : List M → Option M) where
  -- A turn that starts takes all entries with it and releases them.
  no_lease : (s : Session M) (i : ℕ) → s.open_leases ≡ [] → HoldsLease s i → ⊥
  unfolding lookup
  no_lease s i e (id, h) = subst (λ m. LeaseCarries i (lookup id m)) e h

  start_turn-Passes :
      (off : Bool) (b : Budget) (s rest : Session M)
      → IsValid b
      → s.open_leases ≡ []
      → PassesOn b s (start_turn coalesce off b rest s.pending)
  unfolding start_turn
  start_turn-Passes off b s rest v e =
      if_lem (PassesOn b s) (off || is_empty s.pending) _ _
        (λ h. release-Passes b s rest s.pending v (gone rest))
        (λ h. release-Passes b s _ s.pending v (
          gone (
            maybe rest (λ m. record rest { running = some (queued m) })
              (coalesce (messages s.pending)))))
    where
      gone : (s' : Session M) (i : ℕ) → (Carries i s.pending → ⊥) → Holds s i → Holds s' i
      gone s' i out (inl c) = absurd (out c)
      gone s' i out (inr c) = absurd (no_lease s i e c)

  no_more : (m : List (ℕ × Lease M)) → not (is_empty m) ≡ false → m ≡ []
  no_more [] e = refl
  no_more (x ∷ m) e = ground (arith, e)

  pub drain-Passes :
      (off : Bool) (b : Budget) (s : Session M) → IsValid b → PassesOn b s (drain coalesce off b s)
  unfolding drain
  drain-Passes off b s v =
      if_lem (PassesOn b s) (is_some s.running || not (is_empty s.open_leases)) _ _
        (λ h. same-Passes b s s v (λ i c. c))
        λ h.
          if_lem (PassesOn b s) (is_empty s.pending) _ _
            (λ e.
              same-Passes b s (record s { ready_to_drain = false; pending = [] }) v (unqueued e))
            λ e.
              start_turn-Passes off b s (record s { ready_to_drain = false; pending = [] }) v
                (no_more s.open_leases (ground (arith, h)))
    where
      unqueued : is_empty s.pending ≡ true → (i : ℕ) → Holds s i → ⊥ ⊎ HoldsLease s i
      unqueued e i (inl c) = cc (e, carries_nonempty i s.pending c)
      unqueued e i (inr c) = inr c

  pub settled-Passes :
      (off : Bool) (b : Budget) (s : Session M)
      → IsValid b
      → PassesOn b s (settled_session coalesce off b s)
  settled-Passes off b s v =
      if_lem (PassesOn b s) off _ _
        (λ h. release-Passes b s (record s { running = none; pending = [] }) s.pending v dropped)
        λ h.
          if_lem (PassesOn b s) (not (is_empty s.open_leases)) _ _
            (λ e. same-Passes b s (record s { running = none; ready_to_drain = true }) v (λ i c. c))
            λ e.
              let s' = record s { running = none } in
              let p = drain-Passes off b s' v in
              record { valid = p.valid; before = p.before; holds = p.holds }
    where
      dropped : (i : ℕ) → (Carries i s.pending → ⊥) → Holds s i → ⊥ ⊎ HoldsLease s i
      dropped i out (inl c) = absurd (out c)
      dropped i out (inr c) = inr c

  pub finish_drain-Passes :
      (off : Bool) (b : Budget) (s : Session M)
      → IsValid b
      → PassesOn b s (finish_drain coalesce off b s)
  finish_drain-Passes off b s v =
      if_lem (PassesOn b s) (not (is_some s.running) && is_empty s.open_leases) _ _
        (λ h. drain-Passes off b s v)
        λ h.
          if_lem (PassesOn b s) (s.ready_to_drain && is_empty s.open_leases) _ _
            (λ e. drain-Passes off b s v) (λ e. same-Passes b s s v (λ i c. c))

  -- A lease that finishes: its committed entries are in the queue, the provisional ones released.
  closes :
      (s : Session M) (id : ℕ) (l : Lease M) (i : ℕ)
      → lookup id s.open_leases ≡ some l
      → (Carries i (keep is_provisional l.entries) → ⊥)
      → Holds s i
      → Holds (without_lease s id l) i
  closes s id l i found out (inl c) = inl (carries_left i s.pending (attach l.entries) c)
  closes s id l i found out (inr (j, c)) = elim (Bool-cases (id == j)) [
    | inl same ↦
        let here =
          subst (λ k. LeaseCarries i (lookup k s.open_leases)) (sym ((nat_eq_iff id j).0 same)) c in
        inl (
          carries_right i s.pending (attach l.entries)
            (attach_carries i l.entries out (subst (LeaseCarries i) found here)))
    | inr other ↦
        let kept : lookup j (erase id s.open_leases) ≡ lookup j s.open_leases =
          lookup-erase id j s.open_leases ∙ rw other refl in
        inr (j, subst (LeaseCarries i) (sym kept) c)
  ]

  pub finish-Passes :
      (off : Bool) (b : Budget) (s : Session M) (id : ℕ) (l : Lease M)
      → IsValid b
      → lookup id s.open_leases ≡ some l
      → PassesOn b s (
          finish_drain coalesce off
            (release_all b (keep is_provisional l.entries))
            (without_lease s id l))
  finish-Passes off b s id l v found =
      let es = keep is_provisional l.entries in
      let released = release-Passes b s (without_lease s id l) es v (λ i. closes s id l i found) in
      Passes-trans b s _ _ _ _ released
        (finish_drain-Passes off (release_all b es) (without_lease s id l) released.valid)
