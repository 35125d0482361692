-- ===== src/Retention/Tally.antt =====
-- What a `SessionState` should count: the reservations that a selector picks.
use openclaw_webchannel.Common.{
  ℕ, ◌+◌, ◌-◌, ◌≡◌, refl, Bool, true, false, ◌&&◌, List, [], ◌∷◌, ◌++◌, some, arith, if◌then◌else◌,
  get_elem?, set, sum_by, sum_by-append, sum_by-set, le-sum_by,
}
use openclaw_webchannel.Retention.{
  RetentionOwner, RetentionUsage, SessionState, Reservation, ok, owner_eq, put_owner, charge,
  uncharge, move_row,
}

-- The weight of a reservation among those that `sel` picks.
abbrev pub share : (Reservation → ℕ) → (Reservation → Bool) → Reservation → ℕ
share w sel r = if sel r then w r else 0

abbrev pub one : Reservation → ℕ
one r = 1

abbrev pub charged : Reservation → ℕ
charged r = r.charged_bytes

abbrev pub owned : (Reservation → Bool) → RetentionOwner → Reservation → Bool
owned sel o r = sel r && owner_eq r.owner o

pub record Tallies (st : SessionState) (sel : Reservation → Bool) (rs : List Reservation)
    : Type 0 where
  pub messages : st.usage.messages ≡ sum_by (share one sel) rs
  pub bytes : st.usage.bytes ≡ sum_by (share charged sel) rs
  pub row_messages :
      (o : RetentionOwner) → (st.breakdown o).messages ≡ sum_by (share one (owned sel o)) rs
  pub row_bytes :
      (o : RetentionOwner) → (st.breakdown o).bytes ≡ sum_by (share charged (owned sel o)) rs

pub owner_eq_self : (o : RetentionOwner) → owner_eq o o ≡ true
owner_eq_self RetentionOwner.debounce_waiting = refl
owner_eq_self _ = refl

owner_eq_comm : (o p : RetentionOwner) → owner_eq o p ≡ owner_eq p o
owner_eq_comm o p = ground arith

owner_eq_lem : (o p : RetentionOwner) → owner_eq o p ≡ true → o ≡ p
owner_eq_lem o p h = ground arith

module _ (st : SessionState) (sel : Reservation → Bool) (rs : List Reservation) where
  -- A new reservation that the selector picks is counted by `charge`.
  pub charge-Tallies :
      (r : Reservation)
      → sel r ≡ true
      → Tallies st sel rs
      → Tallies (charge st r.owner r.charged_bytes) sel (rs ++ r ∷ [])
  unfolding charge
  charge-Tallies r picked t = record {
    messages = ground (arith, sum_by-append (share one sel) rs (r ∷ []), t.messages);
    bytes = ground (arith, sum_by-append (share charged sel) rs (r ∷ []), t.bytes);
    row_messages = λ o. ground (
      arith,
      sum_by-append (share one (owned sel o)) rs (r ∷ []),
      t.row_messages o,
      t.row_messages r.owner,
      owner_eq_lem r.owner o,
    );
    row_bytes = λ o. ground (
      arith,
      sum_by-append (share charged (owned sel o)) rs (r ∷ []),
      t.row_bytes o,
      t.row_bytes r.owner,
      owner_eq_lem r.owner o,
    );
  }

  -- One that it does not pick leaves the count.
  pub append-Tallies :
      (r : Reservation) → sel r ≡ false → Tallies st sel rs → Tallies st sel (rs ++ r ∷ [])
  append-Tallies r skipped t = record {
    messages = ground (arith, sum_by-append (share one sel) rs (r ∷ []), t.messages);
    bytes = ground (arith, sum_by-append (share charged sel) rs (r ∷ []), t.bytes);
    row_messages =
        λ o. ground (arith, sum_by-append (share one (owned sel o)) rs (r ∷ []), t.row_messages o);
    row_bytes =
        λ o. ground (arith, sum_by-append (share charged (owned sel o)) rs (r ∷ []), t.row_bytes o);
  }

  module _ (i : ℕ) (r r' : Reservation) (at : get_elem? rs i ≡ some r) where
    -- A change of flags that the selector does not see.
    pub set-Tallies :
        sel r' ≡ sel r
        → r'.owner ≡ r.owner
        → r'.charged_bytes ≡ r.charged_bytes
        → Tallies st sel rs
        → Tallies st sel (set rs i r')
    set-Tallies same owner bytes t = record {
      messages = ground (arith, sum_by-set (share one sel) rs i r' r at, t.messages);
      bytes = ground (arith, sum_by-set (share charged sel) rs i r' r at, t.bytes);
      row_messages =
          λ o. ground (arith, sum_by-set (share one (owned sel o)) rs i r' r at, t.row_messages o);
      row_bytes =
          λ o. ground (arith, sum_by-set (share charged (owned sel o)) rs i r' r at, t.row_bytes o);
    }

    -- A change of one that the selector picks neither before nor after.
    pub skip-Tallies :
        sel r ≡ false → sel r' ≡ false → Tallies st sel rs → Tallies st sel (set rs i r')
    skip-Tallies before after t = record {
      messages = ground (arith, sum_by-set (share one sel) rs i r' r at, t.messages);
      bytes = ground (arith, sum_by-set (share charged sel) rs i r' r at, t.bytes);
      row_messages =
          λ o. ground (arith, sum_by-set (share one (owned sel o)) rs i r' r at, t.row_messages o);
      row_bytes =
          λ o. ground (arith, sum_by-set (share charged (owned sel o)) rs i r' r at, t.row_bytes o);
    }

    -- A release: the selector no longer picks it, and `uncharge` does not underflow.
    pub uncharge-Tallies :
        sel r ≡ true
        → sel r' ≡ false
        → Tallies st sel rs
        → (st' : SessionState) × (uncharge st r.owner r.charged_bytes ≡ ok st')
          × Tallies st' sel (set rs i r')
    unfolding uncharge
    uncharge-Tallies picked dropped t = (
      record {
        usage = less st.usage;
        breakdown = put_owner r.owner (less (st.breakdown r.owner)) st.breakdown;
      },
      ground (
        arith,
        le-sum_by (share one sel) rs i r at,
        le-sum_by (share charged sel) rs i r at,
        le-sum_by (share one (owned sel r.owner)) rs i r at,
        le-sum_by (share charged (owned sel r.owner)) rs i r at,
        t.messages,
        t.bytes,
        t.row_messages r.owner,
        t.row_bytes r.owner,
        owner_eq_self r.owner,
      ),
      record {
        messages = ground (arith, sum_by-set (share one sel) rs i r' r at, t.messages);
        bytes = ground (arith, sum_by-set (share charged sel) rs i r' r at, t.bytes);
        row_messages = λ o. ground (
          arith,
          sum_by-set (share one (owned sel o)) rs i r' r at,
          t.row_messages o,
          owner_eq_lem r.owner o,
        );
        row_bytes = λ o. ground (
          arith,
          sum_by-set (share charged (owned sel o)) rs i r' r at,
          t.row_bytes o,
          owner_eq_lem r.owner o,
        );
      },
    )
      where
        less : RetentionUsage → RetentionUsage
        less u = record { messages = u.messages - 1; bytes = u.bytes - r.charged_bytes }

    pub move_row-Tallies :
        (next : RetentionOwner)
        → sel r ≡ true
        → sel r' ≡ true
        → r'.owner ≡ next
        → r'.charged_bytes ≡ r.charged_bytes
        → owner_eq next r.owner ≡ false
        → Tallies st sel rs
        → (st' : SessionState) × (move_row st r.owner next r.charged_bytes ≡ ok st')
          × Tallies st' sel (set rs i r')
    unfolding move_row
    move_row-Tallies next picked kept owner bytes ne t = (
      record st {
        breakdown =
            put_owner next (more (st.breakdown next))
              (put_owner r.owner (less (st.breakdown r.owner)) st.breakdown);
      },
      ground (
        arith,
        le-sum_by (share one (owned sel r.owner)) rs i r at,
        le-sum_by (share charged (owned sel r.owner)) rs i r at,
        t.row_messages r.owner,
        t.row_bytes r.owner,
        owner_eq_self r.owner,
        owner_eq_comm r.owner next,
      ),
      record {
        messages = ground (arith, sum_by-set (share one sel) rs i r' r at, t.messages);
        bytes = ground (arith, sum_by-set (share charged sel) rs i r' r at, t.bytes);
        row_messages = λ o. ground (
          arith,
          sum_by-set (share one (owned sel o)) rs i r' r at,
          t.row_messages o,
          owner_eq_lem r.owner o,
          owner_eq_lem next o,
          owner_eq_self next,
        );
        row_bytes = λ o. ground (
          arith,
          sum_by-set (share charged (owned sel o)) rs i r' r at,
          t.row_bytes o,
          owner_eq_lem r.owner o,
          owner_eq_lem next o,
          owner_eq_self next,
        );
      },
    )
      where
        less : RetentionUsage → RetentionUsage
        less u = record { messages = u.messages - 1; bytes = u.bytes - r.charged_bytes }

        more : RetentionUsage → RetentionUsage
        more u = record { messages = u.messages + 1; bytes = u.bytes + r.charged_bytes }
