-- ===== src/Retention/Effects.antt =====
-- What single calls of the budget do to the totals.
use openclaw_webchannel.Common.{
  ℕ, ◌+◌, ◌≤◌, ◌≡◌, ◌≢◌, refl, ◌∙◌, true, false, List, [], ◌∷◌, ◌++◌, some, none, inl, inr, ◌⊎◌,
  get_elem?, arith, length, sum_by, sum_by-eq-zero, All, lookup, get_elem?-set_self, All-get,
  All-map, le→leb, agree_refl, nat_Eq,
}
use openclaw_webchannel.Retention.{
  RetentionOwner, RetentionLimitReason, SessionState, Reservation, Budget, accepted, rejected, ok,
  max_safe_integer, limit_reason, session_state, fresh, admit, charge, try_reserve, request_release,
  begin_release,
}
use openclaw_webchannel.Retention.Tally.{share, one, charged}
use openclaw_webchannel.Retention.Valid.{live, live_in, IsValid, IsSound}
use openclaw_webchannel.Retention.Steps.{session_state-admit}
use openclaw_webchannel.Retention.Release.{finalized, finalize_release-IsValid}

abbrev pub HasRoom : Budget → ℕ → ℕ → Type 0
HasRoom b s c =
    ((session_state b s).usage.messages + 1 ≤ b.limits.max_messages_per_session)
    × ((session_state b s).usage.bytes + c ≤ b.limits.max_bytes_per_session)
    × (b.process.usage.messages + 1 ≤ b.limits.max_messages_per_process)
    × (b.process.usage.bytes + c ≤ b.limits.max_bytes_per_process)

abbrev pub Admitted : Budget → ℕ → ℕ → RetentionOwner → Budget → Type 0
Admitted b s c o b' =
    (b'.process.usage.messages ≡ b.process.usage.messages + 1)
    × (b'.process.usage.bytes ≡ b.process.usage.bytes + c)
    × ((session_state b' s).usage.messages ≡ (session_state b s).usage.messages + 1)
    × ((session_state b' s).usage.bytes ≡ (session_state b s).usage.bytes + c)
    × ((j : ℕ) → j ≢ s → session_state b' j ≡ session_state b j)
    × (b'.reservations ≡ b.reservations ++ fresh s c o ∷ [])

admit-Admitted : (b : Budget) (s c : ℕ) (o : RetentionOwner) → Admitted b s c o (admit b s c o)
unfolding admit charge
admit-Admitted b s c o = (
  refl,
  refl,
  ground (arith, session_state-admit b s c o s),
  ground (arith, session_state-admit b s c o s),
  λ j ne. ground (arith, session_state-admit b s c o j),
  refl,
)

limit_reason_cases :
    (b : Budget) (s c : ℕ)
    → HasRoom b s c × (limit_reason b.limits (session_state b s).usage b.process.usage c ≡ none)
      ⊎ (¬ HasRoom b s c)
        × ((reason : RetentionLimitReason) × (limit_reason b.limits
                (session_state b s).usage
                b.process.usage
                c
              ≡ some reason))
unfolding limit_reason
limit_reason_cases b s c = grind arith

-- A safe charge is accepted exactly when the session and the process have room for one more
-- message and its bytes. Acceptance charges the process and that session alone and appends a live
-- reservation with the handle returned; a refusal changes nothing.
pub try_reserve_cases :
    (b : Budget) (s c : ℕ) (o : RetentionOwner)
    → c ≤ max_safe_integer
    → HasRoom b s c
        × ((b' : Budget) × (try_reserve b s c o ≡ ok (b', accepted (length b.reservations)))
            × Admitted b s c o b')
      ⊎ (¬ HasRoom b s c)
        × ((reason : RetentionLimitReason) × (try_reserve b s c o ≡ ok (b, rejected reason)))
unfolding try_reserve
try_reserve_cases b s c o h = elim (limit_reason_cases b s c) [
  | inl (room, e) ↦
      inl (room, (admit b s c o, rw (le→leb c max_safe_integer h, e) refl, admit-Admitted b s c o))
  | inr (full, (reason, e)) ↦ inr (full, (reason, rw (le→leb c max_safe_integer h, e) refl))
]

-- Requesting the release of a live reservation that nothing holds frees its message and its bytes
-- at once, and asking again changes nothing.
request_release_frees :
    (b : Budget) (i : ℕ) (r : Reservation)
    → IsValid b
    → get_elem? b.reservations i ≡ some r
    → r.released ≡ false
    → r.holds ≡ 0
    → (b' : Budget) × (request_release b i ≡ ok b')
      × IsValid b'
      × (b'.process.usage.messages + 1 ≡ b.process.usage.messages)
      × (b'.process.usage.bytes + r.charged_bytes ≡ b.process.usage.bytes)
      × (request_release b' i ≡ ok b')
unfolding request_release begin_release
request_release_frees b i r v at live_r free =
    let asked : r.release_requested ≡ false =
      ground (arith, All-get IsSound b.reservations i r v.handles at) in
    let fin = finalize_release-IsValid b i r at v live_r true r.holds r.active (record {
      counted = (All-get IsSound b.reservations i r v.handles at).counted;
      waits = ground arith;
    }) in
    let again =
      get_elem?-set_self b.reservations i (finalized b i r at v live_r true r.holds r.active) r
        at in
    (fin.0, ground (arith, fin.1), fin.2, fin.5, fin.6, ground (arith, again, fin.3))

-- When every reservation has been released, nothing is charged and no session is remembered.
when_drained :
    (b : Budget)
    → IsValid b
    → All (λ r. r.released ≡ true) b.reservations
    → (b.process.usage.messages ≡ 0) × (b.process.usage.bytes ≡ 0) × (b.sessions ≡ [])
unfolding session_state lookup
when_drained b v gone = (
  v.process.messages ∙ none_live one,
  v.process.bytes ∙ none_live charged,
  no_sessions b.sessions refl,
)
  where
    none_live : (w : Reservation → ℕ) → sum_by (share w live) b.reservations ≡ 0
    none_live w =
        sum_by-eq-zero (share w live) b.reservations
          (All-map b.reservations (λ r e. ground arith) gone)

    none_live_in : (s : ℕ) → sum_by (share one (live_in s)) b.reservations ≡ 0
    none_live_in s =
        sum_by-eq-zero (share one (live_in s)) b.reservations
          (All-map b.reservations (λ r e. ground arith) gone)

    no_sessions : (m : List (ℕ × SessionState)) → b.sessions ≡ m → m ≡ []
    no_sessions [] e = refl
    no_sessions ((s, st) ∷ m) e =
        let found : lookup s b.sessions ≡ some st = rw e (ground (arith, agree_refl s)) in
        ground (arith, v.occupied s st found, (v.session s).messages, none_live_in s)
