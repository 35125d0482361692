-- ===== src/Ingress/Delivery.antt =====
-- What `filterFreshInboundItems` of ingress-dedupe.ts lets through.
use openclaw_webchannel.Common.{
  sym, ap, ◌∙◌, keep, append-nil, append_assoc, ℕ, ◌+◌, ◌≤◌, ◌≡◌, refl, Bool, true, false, some,
  List, [], ◌∷◌, ◌++◌, Text, text_Eq, text_eq_iff, if◌then◌else◌, any, sum_by-append, Option-cases,
  inl, inr, ◌⊎◌, arith, maybe,
}
use openclaw_webchannel.Ingress.{
  IngressDedupeItem, ingress_dedupe_key, Answer, fresh, duplicate, failed, keep_item, filter_from,
  filter_fresh_inbound_items,
}
use openclaw_webchannel.Ingress.Fresh.{has_key, count, answer-cases}

abbrev pub has_no_key {ℓ} : {A : Type ℓ} → IngressDedupeItem A → Bool
has_no_key item = maybe true (λ key. false) (ingress_dedupe_key item)

keep-append {ℓ} :
    {A : Type ℓ} (p : A → Bool) (xs ys : List A) → keep p (xs ++ ys) ≡ keep p xs ++ keep p ys
keep-append p [] ys = refl
keep-append p (x ∷ xs) ys = ground (arith, keep-append p xs ys)

-- An item with a key is no item without one.
keep_item-idless {ℓ} :
    {A : Type ℓ} (survivors : List (IngressDedupeItem A)) (item : IngressDedupeItem A) (key : Text)
    (answer : Answer)
    → ingress_dedupe_key item ≡ some key
    → keep has_no_key (keep_item survivors item answer) ≡ keep has_no_key survivors
keep_item-idless survivors item key duplicate e = refl
keep_item-idless survivors item key fresh e =
    ground (
      arith,
      e,
      keep-append has_no_key survivors (item ∷ []),
      append-nil (keep has_no_key survivors),
    )
keep_item-idless survivors item key failed e =
    ground (
      arith,
      e,
      keep-append has_no_key survivors (item ∷ []),
      append-nil (keep has_no_key survivors),
    )

any-count {ℓ} :
    {A : Type ℓ} (key : Text) (items : List (IngressDedupeItem A))
    → any (has_key key) items ≡ true
    → 1 ≤ count key items
any-count key [] h = cc
any-count key (item ∷ items) h = ground (arith, h, any-count key items)

module _ {ℓ κ} {A : Type ℓ} {W : Type κ} (check : W → Text → W × Answer) (is_active : W → Bool)
    (seen : W → Text → Bool) where
  -- The copies of a key that may survive.
  abbrev pub hopes : Text → W → List (IngressDedupeItem A) → ℕ
  hopes key w items = if seen w key then 0 else count key items

  module _ (active : (w : W) → is_active w ≡ true)
      (known : (w : W) (key : Text) → (check w key).1 ≡ duplicate → seen w key ≡ true)
      (only : (w : W) (key other : Text)
        → seen (check w key).0 other ≡ true
        → (key ≡ other) ⊎ (seen w other ≡ true)) where
    check-hopes :
        (w : W) (survivors items : List (IngressDedupeItem A)) (item : IngressDedupeItem A)
        (key name : Text)
        → ingress_dedupe_key item ≡ some name
        → 1 ≤ count key survivors + hopes key w (item ∷ items)
        → 1
          ≤ count key (keep_item survivors item (check w name).1) + hopes key (check w name).0 items
    check-hopes w survivors items item key name e h =
        let split = sum_by-append (λ i. if has_key key i then 1 else 0) survivors (item ∷ []) in
        elim (answer-cases (check w name).1) [
          | inl (inl f) ↦ ground (arith, e, f, h, split, only w name key, text_eq_iff name key)
          | inl (inr f) ↦
              ground (arith, e, f, h, known w name, only w name key, text_eq_iff name key)
          | inr f ↦ ground (arith, e, f, h, split, only w name key, text_eq_iff name key)
        ]

    filter_from-hopes :
        (w : W) (survivors items : List (IngressDedupeItem A)) (key : Text)
        → 1 ≤ count key survivors + hopes key w items
        → 1 ≤ count key (filter_from check is_active w survivors items).1
    unfolding filter_from
    filter_from-hopes w survivors [] key h = ground (arith, h)
    filter_from-hopes w survivors (item ∷ items) key h =
        let split = sum_by-append (λ i. if has_key key i then 1 else 0) survivors (item ∷ []) in
        elim (Option-cases (ingress_dedupe_key item)) [
          | inl e ↦
              rw (active w, e)
                (filter_from-hopes w (survivors ++ item ∷ []) items key
                  (ground (arith, e, split, h)))
          | inr (name, e) ↦
              rw (active w, e, active (check w name).0)
                (filter_from-hopes (check w name).0 (keep_item survivors item (check w name).1)
                  items key (check-hopes w survivors items item key name e h))
        ]

    -- While the account stays active, no message with a new key is lost. Where the dedupe store
    -- calls a key a duplicate only if it is marked, and marks none but the key that it checks: of
    -- the messages of a flush that have a key which was not marked, one survives, also where the
    -- store fails.
    pub delivered :
        (w : W) (items : List (IngressDedupeItem A)) (key : Text)
        → seen w key ≡ false
        → any (has_key key) items ≡ true
        → 1 ≤ count key (filter_fresh_inbound_items check is_active w items).1
    delivered w items key new has_it =
        filter_from-hopes w [] items key (ground (arith, new, any-count key items has_it))

module _ {ℓ κ} {A : Type ℓ} {W : Type κ} (check : W → Text → W × Answer) (is_active : W → Bool)
    (active : (w : W) → is_active w ≡ true) where
  filter_from-idless :
      (w : W) (survivors items : List (IngressDedupeItem A))
      → keep has_no_key (filter_from check is_active w survivors items).1
        ≡ keep has_no_key survivors ++ keep has_no_key items
  unfolding filter_from
  filter_from-idless w survivors [] = sym (append-nil (keep has_no_key survivors))
  filter_from-idless w survivors (item ∷ items) = elim (Option-cases (ingress_dedupe_key item)) [
    | inl e ↦
        rw (active w, e)
          (filter_from-idless w (survivors ++ item ∷ []) items
            ∙ (ap (λ front. front ++ keep has_no_key items)
                  (keep-append has_no_key survivors (item ∷ []))
                ∙ rw e
                    (append_assoc (keep has_no_key survivors) (item ∷ []) (keep has_no_key items))))
    | inr (name, e) ↦
        rw (active w, e, active (check w name).0)
          (filter_from-idless (check w name).0 (keep_item survivors item (check w name).1) items
            ∙ ap (λ front. front ++ keep has_no_key items)
                (keep_item-idless survivors item name (check w name).1 e))
  ]

  -- While the account stays active, the messages of a flush that have no usable id all survive, in
  -- their order, whatever else is in the flush and whatever the dedupe store answers.
  pub idless_kept :
      (w : W) (items : List (IngressDedupeItem A))
      → keep has_no_key (filter_fresh_inbound_items check is_active w items).1
        ≡ keep has_no_key items
  idless_kept w items = filter_from-idless w [] items
