-- ===== src/Ingress/Tombstones.antt =====
-- `CancelledInboundFallbackTombstones` of ingress-dedupe.ts: what each operation leaves of the entries.
use openclaw_webchannel.Common.{
  ℕ, ◌+◌, ◌-◌, ◌≤◌, ◌≡◌, refl, sym, subst, Bool, false, ◌||◌, Option, none, some, List, [], ◌∷◌,
  ◌++◌, Text, text_Eq, text_eq_iff, ◌==◌, leb, ltb, length, length-append, sum_by, sum_by-append,
  Bool-cases, lookup, insert, erase, IsDistinct, erase-IsDistinct, insert-IsDistinct, inl, inr,
  if_lem, maybe_lem, arith,
}
use openclaw_webchannel.Ingress.{
  CancelledInboundFallbackTombstones, scoped, is_present, delete, delete_global, delete_missing,
  remove, make_room,
}

abbrev pub Entries : Type 0
Entries = List (Text × ℕ)

abbrev pub total : Entries → ℕ
total = sum_by (λ e. e.1)

pub record IsWithin (s : CancelledInboundFallbackTombstones) : Type 0 where
  pub distinct : IsDistinct s.keys
  pub counted : s.bytes ≡ total s.keys
  pub capped : length s.keys ≤ s.cap
  pub fits : s.bytes ≤ s.byte_cap

-- What the loop leaves of `old` and what follows it, for which there is room.
pub record Leaves (cap byte_cap new : ℕ) (tail before : Entries) (left : Entries × ℕ) : Type 0 where
  pub kept : Entries
  pub entries : left.0 ≡ kept ++ tail
  pub bytes : left.1 ≡ total left.0
  pub room : length left.0 + 1 ≤ cap
  pub fits : left.1 + new ≤ byte_cap
  pub distinct : IsDistinct before → IsDistinct left.0
  pub absent : (name : Text) → lookup name before ≡ none → lookup name left.0 ≡ none

make_room-tail :
    (cap byte_cap new : ℕ) (tail : Entries)
    → length tail + 1 ≤ cap
    → total tail + new ≤ byte_cap
    → make_room cap byte_cap new tail (total tail) ≡ (tail, total tail)
unfolding make_room
make_room-tail cap byte_cap new [] h k = refl
make_room-tail cap byte_cap new (e ∷ tail) h k = ground (arith, h, k)

Leaves-older :
    {cap byte_cap new : ℕ} {tail before : Entries} {left : Entries × ℕ} (e : Text × ℕ)
    → Leaves cap byte_cap new tail before left
    → Leaves cap byte_cap new tail (e ∷ before) left
unfolding lookup
Leaves-older e l = record {
  kept = l.kept;
  entries = l.entries;
  bytes = l.bytes;
  room = l.room;
  fits = l.fits;
  distinct = λ d. l.distinct d.1;
  absent = λ name a. l.absent name (ground (arith, a));
}

make_room-Leaves :
    (cap byte_cap new : ℕ) (old tail : Entries)
    → length tail + 1 ≤ cap
    → total tail + new ≤ byte_cap
    → Leaves cap byte_cap new tail
        (old ++ tail)
        (make_room cap byte_cap new (old ++ tail) (total (old ++ tail)))
unfolding make_room
make_room-Leaves cap byte_cap new [] tail h k =
    subst (Leaves cap byte_cap new tail tail) (sym (make_room-tail cap byte_cap new tail h k))
      (record {
        kept = [];
        entries = refl;
        bytes = refl;
        room = h;
        fits = k;
        distinct = λ d. d;
        absent = λ name a. a;
      })
make_room-Leaves cap byte_cap new (e ∷ old) tail h k =
    let all = old ++ tail in
    let shorter : total all ≡ total (e ∷ all) - e.1 = omega arith in
    if_lem (Leaves cap byte_cap new tail (e ∷ all))
      (leb cap (length (e ∷ all)) || ltb byte_cap (total (e ∷ all) + new))
      (make_room cap byte_cap new all (total (e ∷ all) - e.1)) (e ∷ all, total (e ∷ all))
      (λ full. Leaves-older e (
        subst (λ n. Leaves cap byte_cap new tail all (make_room cap byte_cap new all n)) shorter
          (make_room-Leaves cap byte_cap new old tail h k)))
      (λ roomy. record {
        kept = e ∷ old;
        entries = refl;
        bytes = refl;
        room = ground (arith, roomy);
        fits = ground (arith, roomy);
        distinct = λ d. d;
        absent = λ name a. a;
      })

erase-absent : (name : Text) (m : Entries) → lookup name m ≡ none → erase name m ≡ m
unfolding lookup erase
erase-absent name [] h = refl
erase-absent name ((other, v) ∷ m) h = ground (arith, h, erase-absent name m)

remove-total :
    (name : Text) (n : ℕ) (m : Entries)
    → IsDistinct m
    → lookup name m ≡ some n
    → (total (erase name m) + n ≡ total m) × (length (erase name m) + 1 ≡ length m)
unfolding lookup erase
remove-total name n [] d h = cc
remove-total name n ((other, v) ∷ m) d h = elim (Bool-cases (other == name)) [
  | inl e ↦
      let same : other ≡ name = (text_eq_iff other name).0 e in
      ground (arith, e, h, erase-absent name m (subst (λ k. lookup k m ≡ none) same d.0))
  | inr e ↦ ground (arith, e, h, remove-total name n m d.1)
]

pub insert-absent :
    (name : Text) (n : ℕ) (m : Entries)
    → lookup name m ≡ none
    → insert name n m ≡ m ++ (name, n) ∷ []
unfolding lookup insert
insert-absent name n [] h = refl
insert-absent name n ((other, v) ∷ m) h = ground (arith, h, insert-absent name n m)

remove-IsWithin :
    (s : CancelledInboundFallbackTombstones) (name : Text) (n : ℕ)
    → IsWithin s
    → lookup name s.keys ≡ some n
    → IsWithin (remove s name n)
remove-IsWithin s name n v e =
    let counts = remove-total name n s.keys v.distinct e in
    record {
      distinct = erase-IsDistinct name s.keys v.distinct;
      counted = omega (arith, v.counted, counts);
      capped = omega (arith, v.capped, counts);
      fits = omega (arith, v.fits);
    }

delete_global-IsWithin :
    (s : CancelledInboundFallbackTombstones) (key : Text)
    → IsWithin s
    → IsWithin (delete_global s key).0
delete_global-IsWithin s key v =
    let name = scoped key none in
    maybe_lem (λ (r : CancelledInboundFallbackTombstones × Bool). IsWithin r.0) _ _
      (lookup name s.keys) (λ e. v) (λ n e. remove-IsWithin s name n v e)

delete_missing-IsWithin :
    (s : CancelledInboundFallbackTombstones) (key : Text) (account : Option Text)
    → IsWithin s
    → IsWithin (delete_missing s key account).0
delete_missing-IsWithin s key none v = v
delete_missing-IsWithin s key (some account) v = delete_global-IsWithin s key v

pub delete-IsWithin :
    (s : CancelledInboundFallbackTombstones) (key : Text) (account : Option Text)
    → IsWithin s
    → IsWithin (delete s key account).0
unfolding delete
delete-IsWithin s key account v =
    let name = scoped key account in
    maybe_lem (λ (r : CancelledInboundFallbackTombstones × Bool). IsWithin r.0) _ _
      (lookup name s.keys) (λ e. delete_missing-IsWithin s key account v)
      (λ n e. remove-IsWithin s name n v e)

-- The room that `add` makes, where `tail` fits.
pub room-Leaves :
    (s : CancelledInboundFallbackTombstones) (n : ℕ) (old tail : Entries)
    → IsWithin s
    → s.keys ≡ old ++ tail
    → length tail + 1 ≤ s.cap
    → total tail + n ≤ s.byte_cap
    → Leaves s.cap s.byte_cap n tail s.keys (make_room s.cap s.byte_cap n s.keys s.bytes)
room-Leaves s n old tail v e h k =
    subst (λ b. Leaves s.cap s.byte_cap n tail s.keys (make_room s.cap s.byte_cap n s.keys b))
      (sym v.counted)
      (subst (λ m. Leaves s.cap s.byte_cap n tail m (make_room s.cap s.byte_cap n m (total m)))
        (sym e) (make_room-Leaves s.cap s.byte_cap n old tail h k))

-- A new entry where room was left.
abbrev pub stored :
    CancelledInboundFallbackTombstones → Text → ℕ → Entries × ℕ → CancelledInboundFallbackTombstones
stored s name n left = record s { keys = insert name n left.0; bytes = left.1 + n }

pub stored-IsWithin :
    (s : CancelledInboundFallbackTombstones) (name : Text) (n : ℕ) (tail : Entries)
    (left : Entries × ℕ)
    → IsWithin s
    → lookup name s.keys ≡ none
    → Leaves s.cap s.byte_cap n tail s.keys left
    → IsWithin (stored s name n left)
stored-IsWithin s name n tail left v a l =
    let last = insert-absent name n left.0 (l.absent name a) in
    record {
      distinct = insert-IsDistinct name n left.0 (l.distinct v.distinct);
      counted = rw last (omega (arith, l.bytes, sum_by-append (λ e. e.1) left.0 ((name, n) ∷ [])));
      capped = rw last (omega (arith, l.room, length-append left.0 ((name, n) ∷ [])));
      fits = l.fits;
    }

pub absent-lookup : (o : Option ℕ) → is_present o ≡ false → o ≡ none
absent-lookup none h = refl
absent-lookup (some n) h = cc
