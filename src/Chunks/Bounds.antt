-- ===== src/Chunks/Bounds.antt =====
-- What a run of the writer publishes, whatever it is asked to add.
use openclaw_webchannel.Common.{
  ℕ, ◌+◌, ◌≤◌, ◌<◌, ◌≡◌, refl, sym, ap, subst, Bool, true, false, ◌||◌, List, [], ◌∷◌, ◌++◌, Text,
  text_Eq, text_eq_iff, nat_Eq, ltb, leb, ◌==◌, if◌then◌else◌, length, any, ◌&&◌, All, All-append,
  length-append, Bool-cases, inl, inr, ◌⊎◌, arith,
}
use openclaw_webchannel.Chunks.{
  Options, Writer, IngressResultFrame, Added, answers, measurement_invalid, in_chunk, frame_for,
  flush, keep_or_drop, add_measured, add, finish, new_writer, max_ingress_result_id_length,
  max_safe_integer,
}

-- No id of the list comes twice.
abbrev pub IsDistinctIds : List Text → Type 0
IsDistinctIds [] = Unit
IsDistinctIds (x ∷ xs) = (any (λ y. y == x) xs ≡ false) × IsDistinctIds xs

module _ (options : Options) (measure : IngressResultFrame → ℕ) where
  -- What a frame on the wire keeps to.
  pub record IsBounded (frame : IngressResultFrame) : Type 0 where
    pub some_ids : 0 < length frame.ids
    pub few_ids : length frame.ids ≤ options.max_ids
    pub few_bytes : measure frame ≤ options.effective_limit
    pub distinct : IsDistinctIds frame.ids
    pub same_type : frame.type ≡ options.type

empty-length : (ids : List Text) → (length ids == 0) ≡ true → ids ≡ []
empty-length [] h = refl
empty-length (x ∷ ids) h = absurd (ground arith)

any-append :
    (x y : Text) (ids : List Text)
    → any (λ z. z == x) (ids ++ (y ∷ [])) ≡ (any (λ z. z == x) ids || y == x)
any-append x y [] = ground arith
any-append x y (z ∷ ids) = ground (arith, any-append x y ids)

distinct-append :
    (ids : List Text) (x : Text)
    → IsDistinctIds ids
    → any (λ y. y == x) ids ≡ false
    → IsDistinctIds (ids ++ (x ∷ []))
distinct-append [] x d f = (refl, tt)
distinct-append (y ∷ ids) x d f = (
  ground (arith, any-append y x ids, text_eq_iff x y, text_eq_iff y x, d.0),
  distinct-append ids x d.1 (ground arith),
)

module _ (options : Options) (measure : IngressResultFrame → ℕ)
    (publish : IngressResultFrame → Bool) where
  -- The chunk under way is empty or could be sent.
  abbrev pub IsSendable : List Text → Type 0
  IsSendable ids = (ids ≡ []) ⊎ IsBounded options measure (frame_for options measure publish ids)

  pub record IsValid (w : Writer) : Type 0 where
    pub sent : All (IsBounded options measure) w.published
    pub waiting : IsSendable w.ids

  chunk-IsBounded :
      (w : Writer)
      → IsSendable w.ids
      → (length w.ids == 0) ≡ false
      → IsBounded options measure (frame_for options measure publish w.ids)
  chunk-IsBounded w (inl e) f = absurd (ground (arith, ap (λ ids. length ids == 0) e))
  chunk-IsBounded w (inr b) f = b

  sendable-IsDistinct : (ids : List Text) → IsSendable ids → IsDistinctIds ids
  sendable-IsDistinct ids (inl e) = subst IsDistinctIds (sym e) tt
  sendable-IsDistinct ids (inr b) = b.distinct

  if-IsValid :
      (c : Bool) (x y : Writer)
      → (c ≡ true → IsValid x)
      → (c ≡ false → IsValid y)
      → IsValid (if c then x else y)
  if-IsValid true x y f g = f refl
  if-IsValid false x y f g = g refl

  if-AnswerIsValid :
      (c : Bool) (x y : Writer × Added)
      → IsValid x.0
      → IsValid y.0
      → IsValid ((if c then x else y).0)
  if-AnswerIsValid true x y f g = f
  if-AnswerIsValid false x y f g = g

  flush-IsValid : (w : Writer) → IsValid w → IsValid (flush options measure publish w)
  unfolding flush
  flush-IsValid w v =
      if-IsValid (length w.ids == 0) _ _ (λ e. v)
        (λ e. record {
          sent =
              All-append (IsBounded options measure) w.published
                (frame_for options measure publish w.ids ∷ []) v.sent
                (chunk-IsBounded w v.waiting e, tt);
          waiting = inl refl;
        })

  pub flush-ids : (w : Writer) → (flush options measure publish w).ids ≡ []
  unfolding flush
  flush-ids w = elim (Bool-cases (length w.ids == 0)) [
    | inl e ↦ rw (e, flush) (empty-length w.ids e)
    | inr e ↦ rw (e, flush) refl
  ]

  kept-IsValid :
      (w : Writer) (next : List Text) (bytes : ℕ)
      → IsValid w
      → bytes ≡ measure (frame_for options measure publish next)
      → 0 < length next
      → length next ≤ options.max_ids
      → IsDistinctIds next
      → IsValid ((keep_or_drop options measure publish w next bytes).0)
  unfolding keep_or_drop
  kept-IsValid w next bytes v e pos few distinct =
      elim (Bool-cases (ltb options.effective_limit bytes)) [
        | inl b ↦
            subst (λ c. IsValid ((if c then drop_it else keep_it).0)) (sym b)
              (record { sent = v.sent; waiting = v.waiting })
        | inr b ↦
            subst (λ c. IsValid ((if c then drop_it else keep_it).0)) (sym b)
              (record {
                sent = v.sent;
                waiting = inr (record {
                  some_ids = pos;
                  few_ids = few;
                  few_bytes = subst (λ n. n ≤ options.effective_limit) e (ground (arith, b));
                  distinct = distinct;
                  same_type = refl;
                });
              })
      ]
    where
      drop_it : Writer × Added
      drop_it = (record w { ok = false; too_small = w.too_small + 1 }, answers false)

      keep_it : Writer × Added
      keep_it = (record w { ids = next }, answers true)

  -- The cases of `add_measured`, and the chunk that each leaves.
  add_measured-IsValid :
      (w : Writer) (id : Text)
      → 1 ≤ options.max_ids
      → IsValid w
      → length w.ids < options.max_ids
      → in_chunk w id ≡ false
      → IsValid ((add_measured options measure publish w id).0)
  unfolding add_measured
  add_measured-IsValid w id m v few new =
      let next = w.ids ++ (id ∷ []) in
      let bytes = measure (frame_for options measure publish next) in
      let more = length-append w.ids (id ∷ []) in
      if-AnswerIsValid (ltb max_safe_integer bytes) _ _ v (
        if-AnswerIsValid (ltb options.effective_limit bytes && ltb 0 (length w.ids)) _ _
          (kept-IsValid (flush options measure publish w) (id ∷ []) _ (flush-IsValid w v) refl
            (omega arith) m (refl, tt))
          (kept-IsValid w next bytes v refl (omega (arith, more)) (omega (arith, more))
            (distinct-append w.ids id (sendable-IsDistinct w.ids v.waiting) new)))

  -- After the flush of a full chunk there is room for an id that the chunk did not have.
  room_lem :
      (w : Writer) (id : Text) (c : Bool)
      → (c ≡ false → length w.ids < options.max_ids)
      → 1 ≤ options.max_ids
      → IsValid w
      → in_chunk w id ≡ false
      → IsValid (if c then flush options measure publish w else w)
        × (length (if c then flush options measure publish w else w).ids < options.max_ids)
        × (in_chunk (if c then flush options measure publish w else w) id ≡ false)
  room_lem w id true few m v new =
      let e = sym (flush-ids w) in
      (
        flush-IsValid w v,
        subst (λ ids. length ids < options.max_ids) e (omega arith),
        subst (λ ids. any (λ x. x == id) ids ≡ false) e refl,
      )
  room_lem w id false few m v new = (v, few refl, new)

  pub add-IsValid :
      (w : Writer) (id : Text)
      → 1 ≤ options.max_ids
      → IsValid w
      → IsValid ((add options measure publish w id).0)
  unfolding add
  add-IsValid w id m v =
      if-AnswerIsValid (length id == 0 || ltb max_ingress_result_id_length (length id)) _ _ v
        (elim (Bool-cases (in_chunk w id)) [
          | inl e ↦ subst (λ c. IsValid ((if c then (w, answers true) else measured).0)) (sym e) v
          | inr e ↦
              subst (λ c. IsValid ((if c then (w, answers true) else measured).0)) (sym e)
                (add_measured-IsValid room id m (r e).0 (r e).1 (r e).2)
        ])
    where
      room : Writer
      room = if leb options.max_ids (length w.ids) then flush options measure publish w else w

      r :
          in_chunk w id ≡ false
          → IsValid room × (length room.ids < options.max_ids) × (in_chunk room id ≡ false)
      r new = room_lem w id (leb options.max_ids (length w.ids)) (λ e. ground (arith, e)) m v new

      measured : Writer × Added
      measured = add_measured options measure publish room id

  -- The ids in turn, and those that `add` answered `true` to.
  unfoldable pub add_all : Writer → List Text → Writer × List Text
  add_all w [] = (w, [])
  add_all w (id ∷ rest) =
      let (w', answer) = add options measure publish w id in
      let (last, accepted) = add_all w' rest in
      (
        last,
        elim answer [
          | answers b ↦ if b then id ∷ accepted else accepted
          | measurement_invalid ↦ accepted
        ],
      )

  pub add_all-IsValid :
      (w : Writer) (ids : List Text) → 1 ≤ options.max_ids → IsValid w → IsValid ((add_all w ids).0)
  unfolding add_all
  add_all-IsValid w [] m v = v
  add_all-IsValid w (id ∷ rest) m v =
      add_all-IsValid ((add options measure publish w id).0) rest m (add-IsValid w id m v)

  -- Whatever ids are added, every frame published up to `finish` has at least one id, at most
  -- `maxIds`, none of them twice, the type of the writer, and a measure within the limit.
  pub frames-IsBounded :
      (ids : List Text)
      → 1 ≤ options.max_ids
      → All
          (IsBounded options measure)
          (((finish options measure publish ((add_all new_writer ids).0)).0).published)
  unfolding finish
  frames-IsBounded ids m =
      (flush-IsValid ((add_all new_writer ids).0)
        (add_all-IsValid new_writer ids m (record { sent = tt; waiting = inl refl }))).sent
