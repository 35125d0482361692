-- ===== src/Retention/InUse.antt =====
-- inbound-retention.ts: the reservations whose release no one has requested.
use openclaw_webchannel.Common.{
  ℕ, zero, suc, ◌≡◌, ◌≢◌, ◌⊎◌, refl, sym, ap, ◌∙◌, subst, inl, inr, true, false, some, List, [],
  ◌∷◌, ◌++◌, arith, ◌==◌, nat_Eq, nat_eq_iff, length, get_elem?, set, get_elem?-set_self,
  Option-cases, Bool-cases, All-get, leb,
}
use openclaw_webchannel.Retention.{
  Reservation, Budget, Result, ok, throw, ReserveResult, RetentionOwner, Error, ◌>>=◌,
  request_release, begin_release, try_reserve, admit, max_safe_integer, limit_reason, session_state,
  fresh,
}
use openclaw_webchannel.Retention.Run.{
  after, step, step-Keeps, after-IsValid, requests_release, reserves,
}
use openclaw_webchannel.Retention.Steps.{Keeps}
use openclaw_webchannel.Retention.Valid.{IsValid, IsSound}
use openclaw_webchannel.Retention.Release.{finalize_release-IsValid}

abbrev pub InUse : Budget → ℕ → Type 0
InUse b i =
    (r : Reservation) × ((get_elem? b.reservations i ≡ some r) × (r.release_requested ≡ false))

get_elem?-set_other :
    {A : Type 0} (xs : List A) (i j : ℕ) (v : A) → i ≢ j → get_elem? (set xs i v) j ≡ get_elem? xs j
get_elem?-set_other [] i j v h = refl
get_elem?-set_other (x ∷ xs) zero zero v h = absurd (h refl)
get_elem?-set_other (x ∷ xs) zero (suc j) v h = refl
get_elem?-set_other (x ∷ xs) (suc i) zero v h = refl
get_elem?-set_other (x ∷ xs) (suc i) (suc j) v h = get_elem?-set_other xs i j v (λ e. h (ap suc e))

module _ (b : Budget) (i : ℕ) (r : Reservation) (at : get_elem? b.reservations i ≡ some r)
    (v : IsValid b) (asked : r.release_requested ≡ false) where
  sound : IsSound r
  sound = All-get IsSound b.reservations i r v.handles at

  requested_shape :
      (b' : Budget) × (r' : Reservation) × (request_release b i ≡ ok b')
      × (b'.reservations ≡ set b.reservations i r')
      × (r'.release_requested ≡ true)
  unfolding request_release begin_release
  requested_shape = elim (Bool-cases (r.holds == 0)) [
    | inl none_held ↦
        let fin =
          finalize_release-IsValid b i r at v (ground (arith, sound)) true r.holds r.active
            (record { counted = sound.counted; waits = ground arith }) in
        (
          fin.0,
          record r { released = true; release_requested = true },
          ground (arith, fin.1, sound),
          fin.3,
          refl,
        )
    | inr held ↦ (
      record b { reservations = set b.reservations i (record r { release_requested = true }) },
      record r { release_requested = true },
      ground (arith, sound),
      refl,
      refl,
    )
  ]

get_elem?-append_one :
    {A : Type 0} (xs : List A) (x : A) (j : ℕ) (y : A)
    → get_elem? (xs ++ x ∷ []) j ≡ some y
    → (get_elem? xs j ≡ some y) ⊎ (j ≡ length xs)
get_elem?-append_one [] x zero y h = inr refl
get_elem?-append_one [] x (suc j) y h = inl h
get_elem?-append_one (z ∷ xs) x zero y h = inl h
get_elem?-append_one (z ∷ xs) x (suc j) y h = elim (get_elem?-append_one xs x j y h) [
  | inl e ↦ inl e
  | inr e ↦ inr (ap suc e)
]

-- A reservation in use, in a list where the one at `i` has been asked for.
in_use-set :
    (b : Budget) (rs : List Reservation) (i j : ℕ) (r r' : Reservation)
    → get_elem? b.reservations i ≡ some r'
    → rs ≡ set b.reservations i r
    → r.release_requested ≡ true
    → (u : Reservation) × ((get_elem? rs j ≡ some u) × (u.release_requested ≡ false))
    → InUse b j × (j ≢ i)
in_use-set b rs i j r r' at e asked (u, (there, unasked)) =
    let found : get_elem? (set b.reservations i r) j ≡ some u =
      subst (λ xs. get_elem? xs j ≡ some u) e there in
    elim (Bool-cases (i == j)) [
      | inl same ↦
          let here = get_elem?-set_self b.reservations i r r' at in
          absurd (
            ground (
              arith,
              subst (λ k. get_elem? (set b.reservations i r) k ≡ some u)
                  (sym ((nat_eq_iff i j).0 same)) found,
              here,
            ))
      | inr other ↦
          let apart : i ≢ j = λ e'. ground (arith, (nat_eq_iff i j).1 e') in
          (
            (u, (sym (get_elem?-set_other b.reservations i j r apart) ∙ found, unasked)),
            (λ e'. apart (sym e')),
          )
    ]

-- A request takes its own reservation out of use, and puts none into use.
pub released_in_use :
    (b : Budget) (i j : ℕ)
    → IsValid b
    → InUse (after b (request_release b i)) j
    → InUse b j × (j ≢ i)
unfolding request_release
released_in_use b i j v u = elim (Option-cases (get_elem? b.reservations i)) [
  | inl e ↦
      let none_there : request_release b i ≡ throw Error.dangling = rw e refl in
      let u' : InUse b j = subst (λ x. InUse (after b x) j) none_there u in
      (u', λ same. cc (u'.1.0, ap (get_elem? b.reservations) same, e))
  | inr (r', at) ↦ elim (Bool-cases r'.release_requested) [
    | inl asked ↦
        let stays : request_release b i ≡ ok b = rw (at, asked) refl in
        let u' : InUse b j = subst (λ x. InUse (after b x) j) stays u in
        (u', λ same. ground (arith, u'.1.0, u'.1.1, ap (get_elem? b.reservations) same, at, asked))
    | inr unasked ↦
        let (b', r, e, now, asked) = requested_shape b i r' at v unasked in
        in_use-set b b'.reservations i j r r' at now asked (subst (λ x. InUse (after b x) j) e u)
  ]
]

pub request_release-IsValid :
    (b : Budget) (i : ℕ) → IsValid b → IsValid (after b (request_release b i))
unfolding step
request_release-IsValid b i v =
    after-IsValid b (request_release b i) v (step-Keeps b (requests_release i) v)

pub try_reserve-IsValid :
    (b b' : Budget) (s c : ℕ) (o : RetentionOwner) (a : ReserveResult)
    → IsValid b
    → try_reserve b s c o ≡ ok (b', a)
    → IsValid b'
unfolding step
try_reserve-IsValid b b' s c o a v e =
    subst (λ x. Keeps (x >>= λ p. ok p.0)) e (step-Keeps b (reserves s c o) v)

-- A reservation in use after an admission is the new one, or was in use before.
pub admitted_in_use :
    (b : Budget) (s c : ℕ) (o : RetentionOwner) (j : ℕ)
    → InUse (admit b s c o) j
    → InUse b j ⊎ (j ≡ length b.reservations)
unfolding admit
admitted_in_use b s c o j (r, (there, unasked)) =
    elim (get_elem?-append_one b.reservations (fresh s c o) j r there) [
      | inl before ↦ inl (r, (before, unasked))
      | inr last ↦ inr last
    ]

-- What each answer of `tryReserve` says of the budget that it leaves.
abbrev pub Answers : Budget → ℕ → ℕ → RetentionOwner → Result (Budget × ReserveResult) → Type 0
Answers b s c o (throw e) = Unit
Answers b s c o (ok (b', ReserveResult.accepted n)) =
    (b' ≡ admit b s c o) × (n ≡ length b.reservations)
Answers b s c o (ok (b', ReserveResult.rejected reason)) = b' ≡ b

pub try_reserve-Answers :
    (b : Budget) (s c : ℕ) (o : RetentionOwner) → Answers b s c o (try_reserve b s c o)
unfolding try_reserve
try_reserve-Answers b s c o = elim (Bool-cases (leb c max_safe_integer)) [
  | inl small ↦
      rw small
        (elim (Option-cases (limit_reason b.limits (session_state b s).usage b.process.usage c)) [
          | inl room ↦ rw room (refl, refl)
          | inr (reason, full) ↦ rw full refl
        ])
  | inr large ↦ rw large tt
]
