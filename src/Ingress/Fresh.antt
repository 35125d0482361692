-- ===== src/Ingress/Fresh.antt =====
-- `filterFreshInboundItems` of ingress-dedupe.ts, over the flushes of an account.
use openclaw_webchannel.Common.{
  ℕ, ◌+◌, ◌≤◌, ◌≡◌, refl, Bool, true, false, not, Option, none, some, List, [], ◌∷◌, ◌++◌, Text,
  text_Eq, text_eq_iff, ◌==◌, if◌then◌else◌, sum_by, sum_by-append, Bool-cases, inl, inr, ◌⊎◌,
  arith, maybe, maybe_lem, if_lem, All,
}
use openclaw_webchannel.Ingress.{
  IngressDedupeItem, ingress_dedupe_key, Answer, fresh, duplicate, failed, keep_item, filter_from,
  filter_fresh_inbound_items, filter_item,
}

abbrev pub is_key : Text → Option Text → Bool
is_key key none = false
is_key key (some other) = other == key

abbrev pub has_key {ℓ} : {A : Type ℓ} → Text → IngressDedupeItem A → Bool
has_key key item = is_key key (ingress_dedupe_key item)

-- How many of the items have the key.
abbrev pub count {ℓ} : {A : Type ℓ} → Text → List (IngressDedupeItem A) → ℕ
count key items = sum_by (λ item. if has_key key item then 1 else 0) items

pub answer-cases : (a : Answer) → ((a ≡ fresh) ⊎ (a ≡ duplicate)) ⊎ (a ≡ failed)
answer-cases fresh = inl (inl refl)
answer-cases duplicate = inl (inr refl)
answer-cases failed = inr refl

-- 1 for a key that is not recorded.
abbrev pub unseen {κ} : {W : Type κ} → (W → Text → Bool) → W → Text → ℕ
unseen seen w key = if seen w key then 0 else 1

-- From `w` to `w'`, where `n` copies of a key were kept at first and `m` are at the end: the copies
-- kept in between, and those still possible, are no more than were possible and what was lost.
abbrev pub Within {κ} :
    {W : Type κ} → (W → Text → Bool) → (W → Text → ℕ) → W → Text → ℕ → W × ℕ → Type 0
Within seen lost w key n (w', m) =
    m + (unseen seen w' key + lost w key) ≤ n + (unseen seen w key + lost w' key)

abbrev pub Paid {κ} : {W : Type κ} → (W → Text → Bool) → (W → Text → ℕ) → W → Text → ℕ → W → Type 0
Paid seen lost w key n w' = n + (unseen seen w' key + lost w key) ≤ unseen seen w key + lost w' key

module _ {ℓ κ} {A : Type ℓ} {W : Type κ} (check : W → Text → W × Answer) (is_active : W → Bool)
    (seen : W → Text → Bool) (lost : W → Text → ℕ) where
  -- One flush after another, where other code runs before each: all that survived.
  unfoldable pub run_flushes :
      W → List ((W → W) × List (IngressDedupeItem A)) → W × List (IngressDedupeItem A)
  run_flushes w [] = (w, [])
  run_flushes w ((others, items) ∷ flushes) =
      let flushed = filter_fresh_inbound_items check is_active (others w) items in
      let later = run_flushes flushed.0 flushes in (later.0, flushed.1 ++ later.1)

  module _
      (marks : (w : W) (key : Text) → (check w key).1 ≡ fresh → seen (check w key).0 key ≡ true)
      (news : (w : W) (key : Text) → (check w key).1 ≡ fresh → seen w key ≡ false)
      (grows : (w : W) (key other : Text) → lost w other ≤ lost (check w key).0 other)
      (forgets : (w : W) (key other : Text) → Paid seen lost w other 0 (check w key).0)
      (fails : (w : W) (key : Text)
        → (check w key).1 ≡ failed
        → Paid seen lost w key 1 (check w key).0) where
    check-count :
        (w : W) (survivors : List (IngressDedupeItem A)) (item : IngressDedupeItem A)
        (key name : Text)
        → ingress_dedupe_key item ≡ some name
        → Within seen lost w key
            (count key survivors)
            ((check w name).0, count key (keep_item survivors item (check w name).1))
    check-count w survivors item key name e =
        let split = sum_by-append (λ i. if has_key key i then 1 else 0) survivors (item ∷ []) in
        let forgot = forgets w name key in
        elim (Bool-cases (name == key)) [
          | inl same ↦
              let equal : name ≡ key = (text_eq_iff name key).0 same in
              elim (answer-cases (check w name).1) [
                | inl (inl f) ↦
                    ground (arith, e, split, equal, f, grows w name name, marks w name, news w name)
                | inl (inr f) ↦ ground (arith, e, split, equal, f, forgot)
                | inr f ↦ ground (arith, e, split, equal, f, fails w name f)
              ]
          | inr other ↦ elim (answer-cases (check w name).1) [
            | inl (inl f) ↦ ground (arith, e, split, f, forgot)
            | inl (inr f) ↦ ground (arith, e, split, f, forgot)
            | inr f ↦ ground (arith, e, split, f, forgot)
          ]
        ]

    abbrev kept_count : Text → W × Option (List (IngressDedupeItem A)) → W × ℕ
    kept_count key (w, kept) = (w, maybe 0 (count key) kept)

    filter_item-count :
        (w : W) (survivors : List (IngressDedupeItem A)) (item : IngressDedupeItem A) (key : Text)
        → Within seen lost w key
            (count key survivors)
            (kept_count key (filter_item check is_active w survivors item))
    filter_item-count w survivors item key =
        let split = sum_by-append (λ i. if has_key key i then 1 else 0) survivors (item ∷ []) in
        let Fits : W × Option (List (IngressDedupeItem A)) → Type 0 =
          λ r. Within seen lost w key (count key survivors) (kept_count key r) in
        if_lem Fits (not (is_active w)) _ _ (λ off. omega arith)
          (λ on.
            maybe_lem Fits _ _ (ingress_dedupe_key item) (λ e. ground (arith, e, split))
              (λ name e.
                if_lem Fits (not (is_active (check w name).0)) _ _
                  (λ off. omega (arith, forgets w name key))
                  (λ still. check-count w survivors item key name e)))

    filter_from-count :
        (w : W) (survivors items : List (IngressDedupeItem A)) (key : Text)
        → Within seen lost w key (count key survivors) (
          (filter_from check is_active w survivors items).0,
          count key (filter_from check is_active w survivors items).1,
        )
    unfolding filter_from
    filter_from-count w survivors [] key = omega arith
    filter_from-count w survivors (item ∷ items) key =
        let filtered = filter_item check is_active w survivors item in
        let before = filter_item-count w survivors item key in
        maybe_lem
          (λ (r : W × List (IngressDedupeItem A)).
            Within seen lost w key (count key survivors) (r.0, count key r.1))
          _ _ filtered.1 (λ e. ground (arith, e, before))
          (λ kept e. ground (arith, e, before, filter_from-count filtered.0 kept items key))

    flushes-count :
        (w : W) (flushes : List ((W → W) × List (IngressDedupeItem A))) (key : Text)
        → All (λ flush. (v : W) (k : Text) → Paid seen lost v k 0 (flush.0 v)) flushes
        → Within seen lost w key 0 ((run_flushes w flushes).0, count key (run_flushes w flushes).1)
    unfolding run_flushes
    flushes-count w [] key h = omega arith
    flushes-count w ((others, items) ∷ flushes) key h =
        let flushed = filter_fresh_inbound_items check is_active (others w) items in
        let split =
          sum_by-append (λ i. if has_key key i then 1 else 0) flushed.1
            (run_flushes flushed.0 flushes).1 in
        omega (
          arith,
          split,
          h.0 w key,
          filter_from-count (others w) [] items key,
          flushes-count flushed.0 flushes key h.1,
        )

    -- An account processes a message at most once, but for what its dedupe store loses. `lost` counts
    -- for each key the marks that the store or other code dropped and the checks that failed. Where
    -- the store calls a key fresh only if it had no mark, and marks it then: of all the messages
    -- with a key, in any flushes, whatever other code does before each, and whether or not the
    -- account stays active, no more survive than were lost in between, and one more if the key was
    -- not marked at first.
    pub at_most_once :
        (w : W) (flushes : List ((W → W) × List (IngressDedupeItem A))) (key : Text)
        → All (λ flush. (v : W) (k : Text) → Paid seen lost v k 0 (flush.0 v)) flushes
        → count key (run_flushes w flushes).1 + lost w key
          ≤ unseen seen w key + lost (run_flushes w flushes).0 key
    at_most_once w flushes key h = omega (arith, flushes-count w flushes key h)
