-- ===== src/Dispatcher/Leaks.antt =====
-- inbound-queue.ts: the dispatcher holds every reservation in use that it made.
use openclaw_webchannel.Common.{
  ℕ, zero, suc, ◌<◌, ◌≡◌, ◌≢◌, ◌⊎◌, refl, sym, subst, ◌∙◌, inl, inr, Bool, true, false, some, List,
  [], ◌∷◌, ◌++◌, Text, text_Eq, text_eq_iff, arith, nat_Eq, nat_eq_iff, lookup, insert, ◌==◌,
  if◌then◌else◌, maybe_lem, if_lem, Bool-cases, keep, get_elem?, set, lookup-insert,
}
use openclaw_webchannel.Retention.{Budget}
use openclaw_webchannel.Retention.Valid.{IsValid}
use openclaw_webchannel.Retention.InUse.{InUse, released_in_use, request_release-IsValid}
use openclaw_webchannel.Dispatcher.{
  Entry, EntryState, Lease, Session, Dispatcher, BatchLease, lease_of, disposed_lease, is_some,
  is_live, is_idle, put, put_lease, or_new, session_of, find_lease, commit, rollback,
  release_handle, commit_entry, change_entry, mark, new_session,
}
use openclaw_webchannel.Dispatcher.Place.{put_found, put_other}
use openclaw_webchannel.Dispatcher.Holdings.{Carries, Holds, LeaseCarries, Passes, busy_lem}

abbrev pub Held : {M : Type 0} → Dispatcher M → ℕ → Type 0
Held d i = (key : Text) × Holds (session_of d key) i

abbrev pub HasIds : {M : Type 0} → ℕ → Session M → Type 0
HasIds n s = (id : ℕ) → is_some (lookup id s.open_leases) ≡ true → id < n

-- The budget is valid, each reservation in use is held by a session, and lease ids are old.
pub record IsTight {M : Type 0} (d : Dispatcher M) : Type 0 where
  pub valid : IsValid d.budget
  pub covered : (i : ℕ) → InUse d.budget i → Held d i
  pub fresh : (key : Text) → HasIds d.next_lease (session_of d key)

-- What a change of one session must keep, where it may bring a reservation of its own.
pub record Keeps {M : Type 0} (d : Dispatcher M) (s : Session M) (b : Budget) (s' : Session M)
    : Type 0 where
  pub valid : IsValid b
  pub holds : (i : ℕ) → InUse b i → Holds s' i ⊎ (InUse d.budget i × (Holds s i → Holds s' i))
  pub ids : HasIds d.next_lease s'

pub no_ids : (M : Type 0) (n : ℕ) → HasIds n (new_session {M = M})
unfolding lookup
no_ids M n id h = ground (arith, h)

module _ {M : Type 0} where
  pub Passes-Keeps :
      (d : Dispatcher M) (s : Session M) (b : Budget) (s' : Session M)
      → Passes d.budget s b s'
      → HasIds d.next_lease s'
      → Keeps d s b s'
  Passes-Keeps d s b s' p h = record {
    valid = p.valid;
    holds = λ i u. inr (p.before i u, p.holds i u);
    ids = h;
  }

  put_busy :
      (d : Dispatcher M) (key : Text) (b : Budget) (s : Session M) (i : ℕ)
      → Holds s i
      → Holds (session_of (put d key b s) key) i
  put_busy d key b s i h =
      let found : lookup key (put d key b s).sessions ≡ some s =
        put_found d key b s ∙ rw (busy_lem s i h) refl in
      subst (λ o. Holds (or_new o) i) (sym found) h

  put-covered :
      (d : Dispatcher M) (key : Text) (b : Budget) (s : Session M) (i : ℕ)
      → Held d i
      → (Holds (session_of d key) i → Holds s i)
      → Held (put d key b s) i
  put-covered d key b s i (read, h) k = elim (Bool-cases (key == read)) [
    | inl same ↦ (
      key,
      put_busy d key b s i
          (k (subst (λ x. Holds (session_of d x) i) (sym ((text_eq_iff key read).0 same)) h)),
    )
    | inr other ↦ (read, subst (λ o. Holds (or_new o) i) (sym (put_other d key read b s other)) h)
  ]

  put-fresh :
      (d : Dispatcher M) (key : Text) (b : Budget) (s : Session M) (read : Text)
      → HasIds d.next_lease s
      → HasIds d.next_lease (session_of d read)
      → HasIds d.next_lease (session_of (put d key b s) read)
  put-fresh d key b s read new old = elim (Bool-cases (key == read)) [
    | inl same ↦
        subst (λ x. HasIds d.next_lease (session_of (put d key b s) x))
          ((text_eq_iff key read).0 same)
          (subst (λ o. HasIds d.next_lease (or_new o)) (sym (put_found d key b s))
            (elim (Bool-cases (is_idle s)) [
              | inl idle ↦ rw idle (no_ids M d.next_lease)
              | inr busy ↦ rw busy new
            ]))
    | inr other ↦
        subst (λ o. HasIds d.next_lease (or_new o)) (sym (put_other d key read b s other)) old
  ]

  pub put-IsTight :
      (d : Dispatcher M) (key : Text) (b : Budget) (s : Session M)
      → IsTight d
      → Keeps d (session_of d key) b s
      → IsTight (put d key b s)
  unfolding put
  put-IsTight d key b s v k = record {
    valid = k.valid;
    covered = λ i u. elim (k.holds i u) [
      | inl h ↦ (key, put_busy d key b s i h)
      | inr (old, h) ↦ put-covered d key b s i (v.covered i old) h
    ];
    fresh = λ read. put-fresh d key b s read k.ids (v.fresh read);
  }

  pub insert-HasIds :
      (n : ℕ) (s : Session M) (id : ℕ) (l : Lease M)
      → id < n
      → HasIds n s
      → HasIds n (put_lease s id l)
  insert-HasIds n s id l h old j there =
      ground (arith, lookup-insert id j l s.open_leases, nat_eq_iff id j, old j, there)

  -- A lease in its place changes, with no more entries than it had.
  pub put_lease-Holds :
      (s : Session M) (id : ℕ) (l l' : Lease M) (i : ℕ)
      → find_lease s id ≡ some l
      → (Carries i (keep is_live l.entries) → Carries i (keep is_live l'.entries))
      → Holds s i
      → Holds (put_lease s id l') i
  put_lease-Holds s id l l' i found h (inl c) = inl c
  put_lease-Holds s id l l' i found h (inr (j, c)) = elim (Bool-cases (id == j)) [
    | inl same ↦
        let here : lookup id (insert id l' s.open_leases) ≡ some l' =
          lookup-insert id id l' s.open_leases ∙ rw ((nat_eq_iff id id).1 refl) refl in
        let held : LeaseCarries i (lookup id s.open_leases) =
          subst (λ k. LeaseCarries i (lookup k s.open_leases)) (sym ((nat_eq_iff id j).0 same)) c in
        inr (id, subst (LeaseCarries i) (sym here) (h (subst (LeaseCarries i) found held)))
    | inr other ↦
        let there : lookup j (insert id l' s.open_leases) ≡ lookup j s.open_leases =
          lookup-insert id j l' s.open_leases ∙ rw other refl in
        inr (j, subst (LeaseCarries i) (sym there) c)
  ]

  pub found_id :
      (d : Dispatcher M) (key : Text) (id : ℕ) (l : Lease M)
      → IsTight d
      → find_lease (session_of d key) id ≡ some l
      → id < d.next_lease
  found_id d key id l v found = v.fresh key id (rw found refl)

  -- A change of one open lease that keeps the budget's use of its entries.
  pub put_lease-IsTight :
      (d : Dispatcher M) (key : Text) (id : ℕ) (l l' : Lease M) (b : Budget)
      → IsTight d
      → find_lease (session_of d key) id ≡ some l
      → IsValid b
      → ((i : ℕ)
          → InUse b i
          → InUse d.budget i
            × (Carries i (keep is_live l.entries) → Carries i (keep is_live l'.entries)))
      → IsTight (put d key b (put_lease (session_of d key) id l'))
  put_lease-IsTight d key id l l' b v found w h = put-IsTight d key b _ v (record {
    valid = w;
    holds = λ i u. inr ((h i u).0, put_lease-Holds (session_of d key) id l l' i found (h i u).1);
    ids =
        insert-HasIds d.next_lease (session_of d key) id l' (found_id d key id l v found)
          (v.fresh key);
  })

  pub split :
      (i : ℕ) (p : Bool) (x : Entry M) (zs : List (Entry M))
      → Carries i (if p then x ∷ zs else zs)
      → Carries i (if p then x ∷ [] else []) ⊎ Carries i zs
  split i true x zs (inl h) = inl (inl h)
  split i true x zs (inr h) = inr h
  split i false x zs h = inr h

  pub join :
      (i : ℕ) (p : Bool) (x : Entry M) (zs : List (Entry M))
      → Carries i (if p then x ∷ [] else []) ⊎ Carries i zs
      → Carries i (if p then x ∷ zs else zs)
  join i true x zs (inl (inl h)) = inl h
  join i true x zs (inl (inr h)) = absurd h
  join i true x zs (inr h) = inr h
  join i false x zs (inl h) = absurd h
  join i false x zs (inr h) = h

  -- An entry in its place, where what it carried is carried or no longer in use.
  carries-set :
      (es : List (Entry M)) (i j : ℕ) (e e' : Entry M)
      → get_elem? es j ≡ some e
      → (Carries i (keep is_live (e ∷ [])) → Carries i (keep is_live (e' ∷ [])))
      → Carries i (keep is_live es)
      → Carries i (keep is_live (set es j e'))
  carries-set [] i j e e' at h c = absurd c
  carries-set (x ∷ es) i zero e e' at h c = elim (split i (is_live x) x (keep is_live es) c) [
    | inl here ↦
        let same : x ≡ e = ground (arith, at) in
        join i (is_live e') e' (keep is_live es)
          (inl (h (subst (λ y. Carries i (keep is_live (y ∷ []))) same here)))
    | inr later ↦ join i (is_live e') e' (keep is_live es) (inr later)
  ]
  carries-set (x ∷ es) i (suc j) e e' at h c = elim (split i (is_live x) x (keep is_live es) c) [
    | inl here ↦ join i (is_live x) x (keep is_live (set es j e')) (inl here)
    | inr later ↦
        join i (is_live x) x (keep is_live (set es j e')) (inr (carries-set es i j e e' at h later))
  ]

  abbrev pub entry : M → ℕ → EntryState → Entry M
  entry m r st = record { message = m; reservation = r; state = st }

  pub carries_more :
      (es : List (Entry M)) (i : ℕ) (e : Entry M)
      → Carries i (keep is_live es) ⊎ Carries i (keep is_live (e ∷ []))
      → Carries i (keep is_live (es ++ e ∷ []))
  carries_more [] i e (inl h) = absurd h
  carries_more [] i e (inr h) = h
  carries_more (x ∷ es) i e (inl h) = elim (split i (is_live x) x (keep is_live es) h) [
    | inl here ↦ join i (is_live x) x (keep is_live (es ++ e ∷ [])) (inl here)
    | inr later ↦
        join i (is_live x) x (keep is_live (es ++ e ∷ [])) (inr (carries_more es i e (inl later)))
  ]
  carries_more (x ∷ es) i e (inr h) =
      join i (is_live x) x (keep is_live (es ++ e ∷ [])) (inr (carries_more es i e (inr h)))

  commit_one :
      (i : ℕ) (m : M) (r : ℕ) (st : EntryState)
      → Carries i (keep is_live (entry m r st ∷ []))
      → Carries i (keep is_live (commit_entry (entry m r st) ∷ []))
  commit_one i m r EntryState.provisional c = c
  commit_one i m r EntryState.committed c = c
  commit_one i m r EntryState.rolled_back c = c
  commit_one i m r EntryState.attached c = c

  rolled_one : (i : ℕ) (e : Entry M) → i ≢ e.reservation → Carries i (keep is_live (e ∷ [])) → ⊥
  rolled_one i e apart c = elim (split i (is_live e) e [] c) [
    | inl here ↦ only (is_live e) here
    | inr none_left ↦ none_left
  ]
    where
      only : (p : Bool) → Carries i (if p then e ∷ [] else []) → ⊥
      only true (inl same) = apart same
      only true (inr h) = h
      only false h = h

  pub commit-IsTight :
      (d : Dispatcher M) (lease : BatchLease) (j : ℕ) → IsTight d → IsTight (commit d lease j)
  unfolding commit
  commit-IsTight d disposed_lease j v = v
  commit-IsTight d (lease_of key id) j v =
      maybe_lem IsTight d _ _ (λ e. v)
        λ l found.
          put_lease-IsTight d key id l (change_entry l j commit_entry) d.budget v found v.valid
            λ i u. (
              u,
              maybe_lem
                  (λ k.
                    Carries i (keep is_live l.entries) → Carries i (keep is_live (Lease.entries k)))
                  l _ _ (λ e c. c)
                  λ e at c.
                    carries-set l.entries i j e (commit_entry e) at
                      (commit_one i e.message e.reservation e.state) c,
            )

  pub rollback-IsTight :
      (d : Dispatcher M) (lease : BatchLease) (j : ℕ) → IsTight d → IsTight (rollback d lease j)
  unfolding rollback release_handle
  rollback-IsTight d disposed_lease j v = v
  rollback-IsTight d (lease_of key id) j v =
      maybe_lem IsTight d _ _ (λ e. v)
        λ l found.
          maybe_lem IsTight d _ (get_elem? l.entries j) (λ none_there. v)
            λ e at.
              if_lem IsTight (is_live e) _ _
                (λ alive.
                  put_lease-IsTight d key id l _ _ v found
                    (request_release-IsValid d.budget e.reservation v.valid)
                    λ i u.
                      let released = released_in_use d.budget e.reservation i v.valid u in
                      (
                        released.0,
                        carries-set l.entries i j e (mark e EntryState.rolled_back) at
                            (λ c. absurd (rolled_one i e released.1 c)),
                      ))
                (λ dead. v)
