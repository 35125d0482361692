-- ===== src/Retention/Deferral.antt =====
-- inbound-retention.ts: what the holds of a reservation do to its release.
use openclaw_webchannel.Common.{
  ℕ, ◌+◌, ◌-◌, ◌≡◌, refl, Bool, true, false, ◌&&◌, some, arith, ◌==◌, nat_Eq, if◌then◌else◌,
  get_elem?, set, get_elem?-set_self, sum_by-set, le-sum_by, All-get, Bool-cases, inl, inr,
}
use openclaw_webchannel.Retention.{
  RetentionUsage, Reservation, Budget, ok, session_state, unhold, unhold_with, settle_hold,
  request_release, begin_release,
}
use openclaw_webchannel.Retention.Tally.{share, one, charged}
use openclaw_webchannel.Retention.Valid.{live, live_in, flag, IsSound, IsValid}
use openclaw_webchannel.Retention.Release.{finalize_release-IsValid}
use openclaw_webchannel.Retention.Handles.{flags-IsValid}

-- The totals `after` are those `before` less one message of `bytes`, if `gone`, and else the same.
abbrev pub Freed : Bool → ℕ → RetentionUsage → RetentionUsage → Type 0
Freed gone bytes before after =
    (after.messages + (if gone then 1 else 0) ≡ before.messages)
    × (after.bytes + (if gone then bytes else 0) ≡ before.bytes)

-- A reservation that was live changes the totals of the process, and of its session alone, as it is
-- released or not.
changed-Freed :
    (b b' : Budget) (i : ℕ) (r r' : Reservation)
    → IsValid b
    → IsValid b'
    → get_elem? b.reservations i ≡ some r
    → r.released ≡ false
    → b'.reservations ≡ set b.reservations i r'
    → r'.token ≡ r.token
    → r'.charged_bytes ≡ r.charged_bytes
    → Freed r'.released r.charged_bytes b.process.usage b'.process.usage
      × ((s : ℕ)
          → Freed
              (r'.released && (r.token == s))
              r.charged_bytes
              (session_state b s).usage
              (session_state b' s).usage)
changed-Freed b b' i r r' v v' at alive stored token bytes =
    let total = v'.process in
    (
      (
        ground (
          arith,
          stored,
          alive,
          token,
          v.process.messages,
          total.messages,
          sum_by-set (share one live) b.reservations i r' r at,
        ),
        ground (
          arith,
          stored,
          alive,
          token,
          bytes,
          v.process.bytes,
          total.bytes,
          sum_by-set (share charged live) b.reservations i r' r at,
        ),
      ),
      λ s. (
        ground (
          arith,
          stored,
          alive,
          token,
          (v.session s).messages,
          (v'.session s).messages,
          sum_by-set (share one (live_in s)) b.reservations i r' r at,
        ),
        ground (
          arith,
          stored,
          alive,
          token,
          bytes,
          (v.session s).bytes,
          (v'.session s).bytes,
          sum_by-set (share charged (live_in s)) b.reservations i r' r at,
        ),
      ),
    )

-- The hold `h` of a reservation, ended.
abbrev ended : Reservation → ℕ → Bool → Reservation
ended r h gone = record r { holds = r.holds - 1; active = set r.active h false; released = gone }

again_ended :
    (b b' : Budget) (i h : ℕ) (r : Reservation) (gone : Bool)
    → get_elem? b.reservations i ≡ some r
    → get_elem? r.active h ≡ some true
    → b'.reservations ≡ set b.reservations i (ended r h gone)
    → unhold b' i h ≡ ok b'
unfolding unhold unhold_with
again_ended b b' i h r gone at on stored = ground (
  arith,
  stored,
  get_elem?-set_self b.reservations i (ended r h gone) r at,
  get_elem?-set_self r.active h false true on,
)

-- What an unhold does to a live reservation, as it is the last one that a release waits for or not.
unhold-ok :
    (b : Budget) (i h : ℕ) (r : Reservation)
    → IsValid b
    → get_elem? b.reservations i ≡ some r
    → get_elem? r.active h ≡ some true
    → (b' : Budget) × (unhold b i h ≡ ok b')
      × IsValid b'
      × (b'.reservations ≡ set b.reservations i (ended r h (r.release_requested && (r.holds == 1))))
unfolding unhold unhold_with settle_hold
unhold-ok b i h r v at on =
    let sound = All-get IsSound b.reservations i r v.handles at in
    let held = le-sum_by flag r.active h true on in
    let alive : r.released ≡ false = ground (arith, sound, held) in
    let flags = set r.active h false in
    let counts = sum_by-set flag r.active h false true on in
    elim (Bool-cases (r.release_requested && (r.holds == 1))) [
      | inl last ↦
          let fin =
            finalize_release-IsValid b i r at v alive r.release_requested (r.holds - 1) flags
              (record {
                counted = omega (arith, sound.counted, counts);
                waits = ground (arith, last, held, sound);
              }) in
          (
            fin.0,
            ground (arith, fin.1, last, held, sound.counted, alive),
            fin.2,
            ground (arith, fin.3, last),
          )
      | inr more ↦
          let v' = flags-IsValid b i r at v r.release_requested (r.holds - 1) flags (record {
            counted = omega (arith, sound.counted, counts);
            waits = ground (arith, more, held, sound.counted, alive);
          }) in
          (_, ground (arith, more, held, sound.counted, alive), v', ground (arith, more, alive))
    ]

request-deferred :
    (b : Budget) (i h : ℕ) (r : Reservation)
    → IsValid b
    → get_elem? b.reservations i ≡ some r
    → get_elem? r.active h ≡ some true
    → (asked : Budget) × (request_release b i ≡ ok asked)
      × (asked.process ≡ b.process)
      × (asked.sessions ≡ b.sessions)
unfolding request_release begin_release
request-deferred b i h r v at on =
    let sound = All-get IsSound b.reservations i r v.handles at in
    let held = le-sum_by flag r.active h true on in
    elim (Bool-cases r.release_requested) [
      | inl e ↦ (b, ground (arith, at, e), refl, refl)
      | inr e ↦ (
        record b { reservations = set b.reservations i (record r { release_requested = true }) },
        ground (arith, at, e, held, sound.counted, sound.waits),
        refl,
        refl,
      )
    ]

-- A hold defers the release of its reservation. While a hold is active, requesting the release
-- changes no total. Ending the hold lowers the totals of the process and of the reservation's
-- session by its message and its bytes exactly if the release was requested and no other hold is
-- active, and changes no other session's; ending it again changes nothing.
pub hold_defers_release :
    (b : Budget) (i h : ℕ) (r : Reservation)
    → IsValid b
    → get_elem? b.reservations i ≡ some r
    → get_elem? r.active h ≡ some true
    → let gone = r.release_requested && (r.holds == 1) in
      (asked : Budget) × (request_release b i ≡ ok asked)
      × (asked.process ≡ b.process)
      × (asked.sessions ≡ b.sessions)
      × (b' : Budget) × (unhold b i h ≡ ok b')
      × Freed gone r.charged_bytes b.process.usage b'.process.usage
      × ((s : ℕ)
          → Freed
              (gone && (r.token == s))
              r.charged_bytes
              (session_state b s).usage
              (session_state b' s).usage)
      × (unhold b' i h ≡ ok b')
hold_defers_release b i h r v at on =
    let gone = r.release_requested && (r.holds == 1) in
    let sound = All-get IsSound b.reservations i r v.handles at in
    let alive : r.released ≡ false = ground (arith, sound, le-sum_by flag r.active h true on) in
    let (asked, done, process, sessions) = request-deferred b i h r v at on in
    let (b', answer, v', stored) = unhold-ok b i h r v at on in
    let (total, each) = changed-Freed b b' i r (ended r h gone) v v' at alive stored refl refl in
    (
      asked,
      done,
      process,
      sessions,
      b',
      answer,
      total,
      each,
      again_ended b b' i h r gone at on stored,
    )
