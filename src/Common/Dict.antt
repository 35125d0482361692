-- ===== src/Common/Dict.antt =====
-- A JavaScript `Map` as an association list in insertion order: `set` on a present key keeps its
-- place, on a new key appends.
use mathlib.Core.Path.{◌≡◌, refl}
use mathlib.Core.Bool.{Bool, true}
use mathlib.Core.List.{List, [], ◌∷◌}
use mathlib.Core.Option.{Option, none, some}
use native.Mathlib.Omega.{arith}
use openclaw_webchannel.Common.Tests.{Eq, ◌==◌, if◌then◌else◌}

pub agree_refl {ℓ} : {K : Type ℓ} ⦃e : Eq K⦄ (k : K) → (k == k) ≡ true
agree_refl ⦃e⦄ k = (e.agree_iff k k).1 refl

module _ {ℓ κ} {K : Type ℓ} {V : Type κ} ⦃e : Eq K⦄ where
  unfoldable pub lookup : K → List (K × V) → Option V
  lookup key [] = none
  lookup key ((here, value) ∷ rest) = if here == key then some value else lookup key rest

  unfoldable pub insert : K → V → List (K × V) → List (K × V)
  insert key new [] = (key, new) ∷ []
  insert key new ((here, value) ∷ rest) =
      if here == key then (key, new) ∷ rest else (here, value) ∷ insert key new rest

  unfoldable pub erase : K → List (K × V) → List (K × V)
  erase k [] = []
  erase k ((j, w) ∷ m) = if j == k then erase k m else (j, w) ∷ erase k m

  pub lookup-insert :
      (set read : K) (new : V) (rows : List (K × V))
      → lookup read (insert set new rows) ≡ (if set == read then some new else lookup read rows)
  unfolding lookup insert
  lookup-insert set read new [] = refl
  lookup-insert set read new ((here, value) ∷ rest) = ground (
    arith,
    lookup-insert set read new rest,
    e.agree_iff here set,
    e.agree_iff here read,
    e.agree_iff set read,
  )

  pub lookup-erase :
      (k j : K) (m : List (K × V)) → lookup j (erase k m) ≡ (if k == j then none else lookup j m)
  unfolding lookup erase
  lookup-erase k j [] = ground arith
  lookup-erase k j ((i, w) ∷ m) =
      ground (arith, e.agree_iff k j, e.agree_iff i k, e.agree_iff i j, lookup-erase k j m)

abbrev pub keep_value {κ} : {V : Type κ} → (V → Bool) → Option V → Option V
keep_value p none = none
keep_value p (some v) = if p v then some v else none

-- Keys stand once, as in every `Map`.
module _ {ℓ κ} {K : Type ℓ} {V : Type κ} ⦃e : Eq K⦄ where
  abbrev pub IsDistinct : List (K × V) → Type κ
  IsDistinct [] = Unit
  IsDistinct ((k, v) ∷ m) = (lookup k m ≡ none) × IsDistinct m

  abbrev pub keep_values : (V → Bool) → List (K × V) → List (K × V)
  keep_values p [] = []
  keep_values p ((k, v) ∷ m) = if p v then (k, v) ∷ keep_values p m else keep_values p m

  pub lookup-keep_values :
      (p : V → Bool) (k : K) (m : List (K × V))
      → IsDistinct m
      → lookup k (keep_values p m) ≡ keep_value p (lookup k m)
  unfolding lookup
  lookup-keep_values p k [] d = refl
  lookup-keep_values p k ((j, v) ∷ m) d =
      ground (arith, lookup-keep_values p k m d.1, e.agree_iff j k)

  pub keep_values-IsDistinct :
      (p : V → Bool) (m : List (K × V)) → IsDistinct m → IsDistinct (keep_values p m)
  keep_values-IsDistinct p [] d = tt
  keep_values-IsDistinct p ((j, v) ∷ m) d =
      ground (arith, lookup-keep_values p j m d.1, keep_values-IsDistinct p m d.1)

  pub insert-IsDistinct :
      (k : K) (v : V) (m : List (K × V)) → IsDistinct m → IsDistinct (insert k v m)
  unfolding lookup insert
  insert-IsDistinct k v [] d = (refl, tt)
  insert-IsDistinct k v ((j, w) ∷ m) d =
      ground (
        arith,
        insert-IsDistinct k v m d.1,
        lookup-insert k j v m,
        e.agree_iff j k,
        e.agree_iff k j,
      )

  pub erase-IsDistinct : (k : K) (m : List (K × V)) → IsDistinct m → IsDistinct (erase k m)
  unfolding lookup erase
  erase-IsDistinct k [] d = tt
  erase-IsDistinct k ((j, w) ∷ m) d =
      ground (arith, erase-IsDistinct k m d.1, lookup-erase k j m, e.agree_iff j k)
