-- ===== src/Ingress/Recent.antt =====
-- The order of eviction of `CancelledInboundFallbackTombstones`.
use openclaw_webchannel.Common.{
  ℕ, ◌+◌, ◌≤◌, ◌≡◌, refl, sym, ap, ◌∙◌, subst, true, false, Option, none, List, [], ◌∷◌, ◌++◌, Text,
  text_Eq, ltb, length, length-append, sum_by, sum_by-append, lookup, append-nil, agree_refl,
  append_assoc, if_lem, arith,
}
use openclaw_webchannel.Ingress.{
  CancelledInboundFallbackTombstones, new_tombstones, scoped, is_present, has, make_room,
  entry_bytes, add,
}
use openclaw_webchannel.Ingress.Tombstones.{
  Entries, total, IsWithin, Leaves, room-Leaves, stored, absent-lookup, insert-absent,
}
use openclaw_webchannel.Ingress.Calls.{
  Call, run, run-IsWithin, run_cap, new-IsWithin, add_limits, add-IsWithin,
}

-- An entry with the name is among the newest, which are at most `most` and have at most `fit` bytes.
record Recent (s : CancelledInboundFallbackTombstones) (name : Text) (most fit : ℕ) : Type 0 where
  old : Entries
  tail : Entries
  entries : s.keys ≡ old ++ tail
  present : is_present (lookup name tail) ≡ true
  few : length tail ≤ most
  small : total tail ≤ fit

lookup-back :
    (name : Text) (old tail : Entries)
    → is_present (lookup name tail) ≡ true
    → is_present (lookup name (old ++ tail)) ≡ true
unfolding lookup
lookup-back name [] tail h = h
lookup-back name ((other, n) ∷ old) tail h = ground (arith, h, lookup-back name old tail h)

lookup-front :
    (name : Text) (tail later : Entries)
    → is_present (lookup name tail) ≡ true
    → is_present (lookup name (tail ++ later)) ≡ true
unfolding lookup
lookup-front name [] later h = cc
lookup-front name ((other, n) ∷ tail) later h = ground (arith, h, lookup-front name tail later)

lookup-last : (name : Text) (n : ℕ) → is_present (lookup name ((name, n) ∷ [])) ≡ true
unfolding lookup
lookup-last name n = rw agree_refl refl

-- A new entry keeps those that it leaves room for.
stored-Recent :
    (s : CancelledInboundFallbackTombstones) (name added : Text) (n most fit : ℕ) (tail : Entries)
    (left : Entries × ℕ)
    → lookup added s.keys ≡ none
    → Leaves s.cap s.byte_cap n tail s.keys left
    → is_present (lookup name (tail ++ (added, n) ∷ [])) ≡ true
    → length tail + 1 ≤ most
    → total tail + n ≤ fit
    → Recent (stored s added n left) name most fit
stored-Recent s name added n most fit tail left a l p few small = record {
  old = l.kept;
  tail = tail ++ (added, n) ∷ [];
  entries =
      insert-absent added n left.0 (l.absent added a)
      ∙ (ap (λ m. m ++ (added, n) ∷ []) l.entries ∙ append_assoc l.kept tail ((added, n) ∷ []));
  present = p;
  few = omega (arith, few, length-append tail ((added, n) ∷ []));
  small = omega (arith, small, sum_by-append (λ e. e.1) tail ((added, n) ∷ []));
}

Recent-weaken :
    (s : CancelledInboundFallbackTombstones) (name : Text) (most fit n : ℕ)
    → Recent s name most fit
    → Recent s name (most + 1) (fit + n)
Recent-weaken s name most fit n r = record {
  old = r.old;
  tail = r.tail;
  entries = r.entries;
  present = r.present;
  few = omega (arith, r.few);
  small = omega (arith, r.small);
}

module _ (byte_length : Text → ℕ) where
  unfoldable pub add_all :
      CancelledInboundFallbackTombstones
      → List (Text × Option Text)
      → CancelledInboundFallbackTombstones
  add_all s [] = s
  add_all s ((key, account) ∷ later) = add_all (add byte_length s key account) later

  abbrev pub size : Text → Option Text → ℕ
  size key account = entry_bytes byte_length (scoped key account)

  add-Recent :
      (s : CancelledInboundFallbackTombstones) (name key : Text) (account : Option Text)
      (most fit : ℕ)
      → IsWithin s
      → most + 1 ≤ s.cap
      → fit + size key account ≤ s.byte_cap
      → Recent s name most fit
      → Recent (add byte_length s key account) name (most + 1) (fit + size key account)
  unfolding add
  add-Recent s name key account most fit v few small r =
      let added = scoped key account in
      let n = entry_bytes byte_length added in
      let left = make_room s.cap s.byte_cap n s.keys s.bytes in
      let Same : CancelledInboundFallbackTombstones → Type 0 =
        λ t. Recent t name (most + 1) (fit + n) in
      if_lem Same (is_present (lookup added s.keys)) _ _ (λ here. Recent-weaken s name most fit n r)
        (λ new.
          if_lem Same (ltb s.byte_cap n) _ _ (λ large. Recent-weaken s name most fit n r)
            (λ room.
              stored-Recent s name added n (most + 1) (fit + n) r.tail left (absent-lookup _ new)
                (room-Leaves s n r.old r.tail v r.entries (omega (arith, r.few, few))
                  (omega (arith, r.small, small)))
                (lookup-front name r.tail _ r.present) (omega (arith, r.few))
                (omega (arith, r.small))))

  new-Recent :
      (s : CancelledInboundFallbackTombstones) (key : Text) (account : Option Text)
      → IsWithin s
      → 1 ≤ s.cap
      → size key account ≤ s.byte_cap
      → lookup (scoped key account) s.keys ≡ none
      → Recent (add byte_length s key account) (scoped key account) 1 (size key account)
  unfolding add
  new-Recent s key account v pos room new =
      let name = scoped key account in
      let n = entry_bytes byte_length name in
      let left = make_room s.cap s.byte_cap n s.keys s.bytes in
      let Same : CancelledInboundFallbackTombstones → Type 0 = λ t. Recent t name 1 n in
      if_lem Same (is_present (lookup name s.keys)) _ _ (λ here. absurd (ground (arith, here, new)))
        (λ h.
          if_lem Same (ltb s.byte_cap n) _ _ (λ large. absurd (ground (arith, large, room)))
            (λ small.
              stored-Recent s name name n 1 n [] left new
                (room-Leaves s n s.keys [] v (sym (append-nil s.keys)) (omega (arith, pos))
                  (omega (arith, room)))
                (lookup-last name n) (omega arith) (omega arith)))

  add_all-Recent :
      (s : CancelledInboundFallbackTombstones) (name : Text) (later : List (Text × Option Text))
      (most fit : ℕ)
      → IsWithin s
      → 1 ≤ s.cap
      → most + length later ≤ s.cap
      → fit + sum_by (λ c. size c.0 c.1) later ≤ s.byte_cap
      → Recent s name most fit
      → is_present (lookup name (add_all s later).keys) ≡ true
  unfolding add_all
  add_all-Recent s name [] most fit v pos few small r =
      subst (λ m. is_present (lookup name m) ≡ true) (sym r.entries)
        (lookup-back name r.old r.tail r.present)
  add_all-Recent s name ((key, account) ∷ later) most fit v pos few small r =
      let limits = add_limits byte_length s key account in
      add_all-Recent (add byte_length s key account) name later (most + 1) (fit + size key account)
        (add-IsWithin byte_length s key account pos v) (omega (arith, pos, limits))
        (omega (arith, few, limits)) (omega (arith, small, limits))
        (add-Recent s name key account most fit v (omega (arith, few)) (omega (arith, small)) r)

  -- A new tombstone outlives the entries that came before it. Whatever calls were made on
  -- tombstones that started empty with a positive cap: where a key is added that they did not have,
  -- and others after it, and all of these keep within the two caps, the tombstones still have the
  -- key.
  pub recent_kept :
      (cap byte_cap : ℕ) (calls : List Call) (key : Text) (account : Option Text)
      (later : List (Text × Option Text))
      → 1 ≤ cap
      → has (run byte_length (new_tombstones cap byte_cap) calls) key account ≡ false
      → 1 + length later ≤ cap
      → size key account + sum_by (λ c. size c.0 c.1) later ≤ byte_cap
      → has
          (add_all
            (add byte_length (run byte_length (new_tombstones cap byte_cap) calls) key account)
            later)
          key
          account
        ≡ true
  unfolding has
  recent_kept cap byte_cap calls key account later pos new few small =
      let s = run byte_length (new_tombstones cap byte_cap) calls in
      let limits = run_cap byte_length (new_tombstones cap byte_cap) calls in
      let v =
        run-IsWithin byte_length (new_tombstones cap byte_cap) calls pos
          (new-IsWithin byte_length cap byte_cap) in
      let added = add_limits byte_length s key account in
      let r =
        new-Recent s key account v (omega (arith, pos, limits)) (omega (arith, small, limits))
          (absent-lookup _ (ground (arith, new))) in
      let still =
        add_all-Recent (add byte_length s key account) (scoped key account) later 1
          (size key account) (add-IsWithin byte_length s key account (omega (arith, pos, limits)) v)
          (omega (arith, pos, limits, added)) (omega (arith, few, limits, added))
          (omega (arith, small, limits, added)) r in
      ground (arith, still)
