-- ===== src/Chunks/Delivery.antt =====
-- The ids that the writer accepts, and those that its frames carry.
use openclaw_webchannel.Common.{
  ℕ, ◌+◌, ◌≡◌, ◌≢◌, refl, sym, ap, subst, ◌∙◌, Bool, true, false, ◌&&◌, ◌||◌, List, [], ◌∷◌, ◌++◌,
  append-nil, append_assoc, Text, text_Eq, text_eq_iff, nat_Eq, ltb, leb, ◌==◌, if◌then◌else◌,
  length, any, All, Bool-cases, inl, inr, ◌⊎◌, arith,
}
use openclaw_webchannel.Chunks.{
  Options, Writer, IngressResultFrame, Added, answers, measurement_invalid, in_chunk, frame_for,
  flush, keep_or_drop, add_measured, add, finish, new_writer, max_ingress_result_id_length,
  max_safe_integer,
}
use openclaw_webchannel.Chunks.Bounds.{flush-ids, add_all}

-- The ids of the frames, in order.
abbrev pub ids_of : List IngressResultFrame → List Text
ids_of [] = []
ids_of (f ∷ fs) = f.ids ++ ids_of fs

-- The ids sent, with those that wait.
abbrev pub taken : Writer → List Text
taken w = ids_of w.published ++ w.ids

abbrev pub has_id : Text → List Text → Bool
has_id id ids = any (λ x. x == id) ids

ids_of-append : (fs gs : List IngressResultFrame) → ids_of (fs ++ gs) ≡ ids_of fs ++ ids_of gs
ids_of-append [] gs = refl
ids_of-append (f ∷ fs) gs =
    ap (λ t. f.ids ++ t) (ids_of-append fs gs) ∙ sym (append_assoc f.ids (ids_of fs) (ids_of gs))

has_id-append :
    (id : Text) (xs ys : List Text) → has_id id (xs ++ ys) ≡ (has_id id xs || has_id id ys)
has_id-append id [] ys = refl
has_id-append id (x ∷ xs) ys = ground (arith, has_id-append id xs ys)

empty-length : (ids : List Text) → (length ids == 0) ≡ true → ids ≡ []
empty-length [] h = refl
empty-length (x ∷ ids) h = absurd (ground arith)

module _ (options : Options) (measure : IngressResultFrame → ℕ)
    (publish : IngressResultFrame → Bool) where
  taken-flush : (w : Writer) → taken (flush options measure publish w) ≡ taken w
  unfolding flush
  taken-flush w = elim (Bool-cases (length w.ids == 0)) [
    | inl e ↦ rw (e, flush) refl
    | inr e ↦
        rw (e, flush)
          (append-nil (ids_of (w.published ++ (frame_for options measure publish w.ids ∷ [])))
            ∙ (ids_of-append w.published (frame_for options measure publish w.ids ∷ [])
                ∙ ap (λ t. ids_of w.published ++ t) (append-nil w.ids)))
  ]

  -- An answer `true` is for an id taken now, at the end.
  abbrev IsKept : Writer → Text → Writer × Added → Type 0
  IsKept w id (w', answer) =
      ((taken w' ≡ taken w ++ (id ∷ [])) × (answer ≡ answers true))
      ⊎ ((taken w' ≡ taken w) × (answer ≢ answers true))

  refused : answers false ≢ answers true
  refused e = ground arith

  invalid : measurement_invalid ≢ answers true
  invalid e = ground arith

  keep_or_drop_lem :
      (w : Writer) (id : Text) (bytes : ℕ)
      → IsKept w id (keep_or_drop options measure publish w (w.ids ++ (id ∷ [])) bytes)
  unfolding keep_or_drop
  keep_or_drop_lem w id bytes =
      elim (ltb options.effective_limit bytes)
        as (λ c. IsKept w id (
          if c
          then (record w { ok = false; too_small = w.too_small + 1 }, answers false)
          else (record w { ids = w.ids ++ (id ∷ []) }, answers true))) [
            | true ↦ inr (refl, refused)
            | false ↦ inl (sym (append_assoc (ids_of w.published) w.ids (id ∷ [])), refl)
          ]

  IsKept-if :
      (w : Writer) (id : Text) (c : Bool) (x y : Writer × Added)
      → IsKept w id x
      → IsKept w id y
      → IsKept w id (if c then x else y)
  IsKept-if w id true x y f g = f
  IsKept-if w id false x y f g = g

  IsKept-taken :
      (w w' : Writer) (id : Text) (x : Writer × Added)
      → taken w' ≡ taken w
      → IsKept w' id x
      → IsKept w id x
  IsKept-taken w w' id (x, answer) e (inl (t, a)) = inl (t ∙ ap (λ l. l ++ (id ∷ [])) e, a)
  IsKept-taken w w' id (x, answer) e (inr (t, a)) = inr (t ∙ e, a)

  add_measured_answer :
      (w : Writer) (id : Text) → IsKept w id (add_measured options measure publish w id)
  unfolding add_measured
  add_measured_answer w id =
      let next = w.ids ++ (id ∷ []) in
      let bytes = measure (frame_for options measure publish next) in
      let fresh = measure (frame_for options measure publish (id ∷ [])) in
      let flushed = flush options measure publish w in
      IsKept-if w id (ltb max_safe_integer bytes) _ _ (inr (refl, invalid)) (
        IsKept-if w id (ltb options.effective_limit bytes && ltb 0 (length w.ids)) _ _
          (IsKept-taken w flushed id (keep_or_drop options measure publish flushed (id ∷ []) fresh)
            (taken-flush w)
            (subst
              (λ ids.
                IsKept flushed id
                  (keep_or_drop options measure publish flushed (ids ++ (id ∷ [])) fresh))
              (flush-ids options measure publish w) (keep_or_drop_lem flushed id fresh)))
          (keep_or_drop_lem w id bytes))

  abbrev room : Writer → Writer
  room w = if leb options.max_ids (length w.ids) then flush options measure publish w else w

  taken-room : (w : Writer) → taken (room w) ≡ taken w
  taken-room w =
      elim (leb options.max_ids (length w.ids))
        as (λ c. taken (if c then flush options measure publish w else w) ≡ taken w) [
          | true ↦ taken-flush w
          | false ↦ refl
        ]

  -- `add` answers `true` for an id taken now, at the end, or waiting in the chunk.
  abbrev IsAnswer : Writer → Text → Writer × Added → Type 0
  IsAnswer w id (w', answer) =
      IsKept w id (w', answer) ⊎ ((taken w' ≡ taken w) × (in_chunk w id ≡ true))

  add_cases : (w : Writer) (id : Text) → IsAnswer w id (add options measure publish w id)
  unfolding add
  add_cases w id =
      elim (length id == 0 || ltb max_ingress_result_id_length (length id))
        as (λ c. IsAnswer w id (
          if c
          then (w, answers false)
          else (if in_chunk w id
              then (w, answers true)
              else add_measured options measure publish (room w) id))) [
                | true ↦ inl (inr (refl, refused))
                | false ↦ elim (Bool-cases (in_chunk w id)) [
                  | inl e ↦
                      subst
                        (λ c. IsAnswer w id (
                          if c
                          then (w, answers true)
                          else add_measured options measure publish (room w) id))
                        (sym e) (inr (refl, e))
                  | inr e ↦
                      subst
                        (λ c. IsAnswer w id (
                          if c
                          then (w, answers true)
                          else add_measured options measure publish (room w) id))
                        (sym e)
                        (inl (
                          IsKept-taken w (room w) id
                            (add_measured options measure publish (room w) id) (taken-room w)
                            (add_measured_answer (room w) id)))
                ]
              ]

  answer_lem :
      (w : Writer) (id : Text) (x : Writer × Added)
      → IsAnswer w id x
      → x.1 ≡ answers true
      → has_id id (taken x.0) ≡ true
  answer_lem w id (w', a) (inl (inl (t, _))) e =
      ap (has_id id) t ∙ (has_id-append id (taken w) (id ∷ []) ∙ ground (arith, text_eq_iff id id))
  answer_lem w id (w', a) (inl (inr (t, n))) e = absurd (n e)
  answer_lem w id (w', a) (inr (t, c)) e =
      ap (has_id id) t ∙ (has_id-append id (ids_of w.published) w.ids ∙ ground (arith, c))

  keeps_lem :
      (w : Writer) (id x : Text) (out : Writer × Added)
      → IsAnswer w id out
      → has_id x (taken w) ≡ true
      → has_id x (taken out.0) ≡ true
  keeps_lem w id x (w', a) (inl (inl (t, _))) h =
      ap (has_id x) t ∙ (has_id-append x (taken w) (id ∷ []) ∙ ground (arith, h))
  keeps_lem w id x (w', a) (inl (inr (t, n))) h = ap (has_id x) t ∙ h
  keeps_lem w id x (w', a) (inr (t, c)) h = ap (has_id x) t ∙ h

  -- An id that `add` answers `true` to is the last that the writer has, or one that waits.
  pub add_answer :
      (w : Writer) (id : Text)
      → ((add options measure publish w id).1 ≡ answers true)
      → has_id id (taken (add options measure publish w id).0) ≡ true
  add_answer w id = answer_lem w id (add options measure publish w id) (add_cases w id)

  -- Nothing that the writer has is lost.
  pub add_keeps :
      (w : Writer) (id x : Text)
      → has_id x (taken w) ≡ true
      → has_id x (taken (add options measure publish w id).0) ≡ true
  add_keeps w id x h = keeps_lem w id x (add options measure publish w id) (add_cases w id) h

  add_all-keeps :
      (w : Writer) (ids : List Text) (x : Text)
      → has_id x (taken w) ≡ true
      → has_id x (taken (add_all options measure publish w ids).0) ≡ true
  unfolding add_all
  add_all-keeps w [] x h = h
  add_all-keeps w (id ∷ ids) x h =
      add_all-keeps ((add options measure publish w id).0) ids x (add_keeps w id x h)

  accept :
      (P : Text → Type 0) (id : Text) (rest : List Text) (answer : Added)
      → All P rest
      → (answer ≡ answers true → P id)
      → All P
          (elim answer [ answers b ↦ if b then id ∷ rest else rest | measurement_invalid ↦ rest ])
  accept P id rest (answers true) h f = (f refl, h)
  accept P id rest (answers false) h f = h
  accept P id rest measurement_invalid h f = h

  add_all-accepted :
      (w : Writer) (ids : List Text)
      → All
          (λ id. has_id id (taken (add_all options measure publish w ids).0) ≡ true)
          ((add_all options measure publish w ids).1)
  unfolding add_all
  add_all-accepted w [] = tt
  add_all-accepted w (id ∷ ids) =
      accept
        (λ x.
          has_id x
            (taken (add_all options measure publish ((add options measure publish w id).0) ids).0)
          ≡ true)
        id ((add_all options measure publish ((add options measure publish w id).0) ids).1)
        ((add options measure publish w id).1)
        (add_all-accepted ((add options measure publish w id).0) ids)
        (λ e. add_all-keeps ((add options measure publish w id).0) ids id (add_answer w id e))

  -- After `finish`, every id that `add` answered `true` to is in a published frame, and the ids of
  -- the frames, in order, are the ids that the writer had.
  pub finish_delivers :
      (ids : List Text)
      → let (w, accepted) = add_all options measure publish new_writer ids in
        let sent = ids_of ((finish options measure publish w).0).published in
        All (λ id. has_id id sent ≡ true) accepted × (sent ≡ taken w)
  unfolding finish
  finish_delivers ids =
      let w = (add_all options measure publish new_writer ids).0 in
      let flushed = flush options measure publish w in
      let e : ids_of flushed.published ≡ taken w =
        sym (append-nil (ids_of flushed.published))
        ∙ (ap (λ l. ids_of flushed.published ++ l) (sym (flush-ids options measure publish w))
            ∙ taken-flush w) in
      (
        subst
            (λ l.
              All (λ id. has_id id l ≡ true) ((add_all options measure publish new_writer ids).1))
            (sym e) (add_all-accepted new_writer ids),
        e,
      )
