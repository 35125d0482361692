-- ===== src/Dispatcher/Queue.antt =====
-- inbound-queue.ts: a session of the dispatcher as a first-in first-out queue with one turn at a time.
use openclaw_webchannel.Common.{
  if◌then◌else◌, ◌≡◌, refl, sym, ap, subst, ◌∙◌, inl, inr, true, false, Option, none, some, List,
  [], ◌∷◌, ◌++◌, append-nil, append_assoc, Text, text_Eq, text_eq_iff, arith, ◌==◌, Bool-cases,
}
use openclaw_webchannel.Retention.{Budget}
use openclaw_webchannel.Dispatcher.{
  Entry, Session, Dispatcher, Turn, queued, handling, is_empty, is_some, is_idle, put, session_of,
  messages, or_new,
}
use openclaw_webchannel.Dispatcher.Place.{put_found, put_other}

-- The turn of a session, and the messages that wait for the next one, the oldest first.
pub record Line (M : Type 0) : Type 0 where
  pub turn : Option (Turn M)
  pub waiting : List M

abbrev pub line : {M : Type 0} → Option (Turn M) → List M → Line M
line t w = record { turn = t; waiting = w }

-- What may happen to a line. Messages join at the end, in the order given; a turn starts only where
-- none is there, and takes all that wait, merged; its handler is called once, and it ends. Only a
-- merge that fails loses messages. The first list is what joined, the second what each turn took,
-- the third what the handler was called with.
pub data Steps {M : Type 0} (coalesce : List M → Option M)
    : Line M → List M → List (List M) → List M → Line M → Type 0 where
  rests : {l : Line M} → Steps coalesce l [] [] [] l
  joins :
      {t : Option (Turn M)} {l : Line M} (w ms ins : List M) (outs : List (List M))
      (handed : List M)
      → Steps coalesce (line t (w ++ ms)) ins outs handed l
      → Steps coalesce (line t w) (ms ++ ins) outs handed l
  starts :
      {l : Line M} {m : M} (w ins : List M) (outs : List (List M)) (handed : List M)
      → coalesce w ≡ some m
      → Steps coalesce (line (some (queued m)) []) ins outs handed l
      → Steps coalesce (line none w) ins (w ∷ outs) handed l
  fails :
      {l : Line M} (w ins : List M) (outs : List (List M)) (handed : List M)
      → coalesce w ≡ none
      → Steps coalesce (line none []) ins outs handed l
      → Steps coalesce (line none w) ins (w ∷ outs) handed l
  calls :
      {w : List M} {l : Line M} (m : M) (ins : List M) (outs : List (List M)) (handed : List M)
      → Steps coalesce (line (some handling) w) ins outs handed l
      → Steps coalesce (line (some (queued m)) w) ins outs (m ∷ handed) l
  ends :
      {w ins handed : List M} {outs : List (List M)} {l : Line M}
      → Steps coalesce (line none w) ins outs handed l
      → Steps coalesce (line (some handling) w) ins outs handed l

abbrev pub Reaches : {M : Type 0} → (List M → Option M) → List M → List M → Line M → Line M → Type 0
Reaches {M} coalesce ins handed l l' = (outs : List (List M)) × Steps coalesce l ins outs handed l'

abbrev pub line_of : {M : Type 0} → Session M → Line M
line_of s = line s.running (messages s.pending)

abbrev pub concat : {M : Type 0} → List (List M) → List M
concat [] = []
concat (ms ∷ rest) = ms ++ concat rest

abbrev pub list_of : {M : Type 0} → Option M → List M
list_of none = []
list_of (some m) = m ∷ []

-- The messages that the batches merge into.
abbrev pub merged : {M : Type 0} → (List M → Option M) → List (List M) → List M
merged coalesce [] = []
merged coalesce (ms ∷ rest) = list_of (coalesce ms) ++ merged coalesce rest

-- The message of a turn whose handler is still to be called.
abbrev pub to_call : {M : Type 0} → Option (Turn M) → List M
to_call none = []
to_call (some handling) = []
to_call (some (queued m)) = m ∷ []

-- What a call on the session `key` did to the session `read`.
abbrev pub at : {M : Type 0} → Text → Text → List M → List M
at key read ms = if key == read then ms else []

module _ {M : Type 0} (coalesce : List M → Option M) where
  pub Steps_conserve :
      (l l' : Line M) (ins : List M) (outs : List (List M)) (handed : List M)
      → Steps coalesce l ins outs handed l'
      → l.waiting ++ ins ≡ concat outs ++ l'.waiting
  Steps_conserve l l' ins outs handed rests = append-nil l.waiting
  Steps_conserve l l' ins outs handed (joins w ms ins' outs' h rest) =
      sym (append_assoc w ms ins') ∙ Steps_conserve _ l' ins' outs' h rest
  Steps_conserve l l' ins outs handed (starts w ins' outs' h e rest) =
      ap (λ xs. w ++ xs) (Steps_conserve _ l' ins' outs' h rest)
      ∙ sym (append_assoc w (concat outs') l'.waiting)
  Steps_conserve l l' ins outs handed (fails w ins' outs' h e rest) =
      ap (λ xs. w ++ xs) (Steps_conserve _ l' ins' outs' h rest)
      ∙ sym (append_assoc w (concat outs') l'.waiting)
  Steps_conserve l l' ins outs handed (calls m ins' outs' h rest) =
      Steps_conserve _ l' ins' outs' h rest
  Steps_conserve l l' ins outs handed (ends rest) = Steps_conserve _ l' ins outs handed rest

  -- Each batch that merges is handed to the handler once, in order.
  pub Steps_hand :
      (l l' : Line M) (ins : List M) (outs : List (List M)) (handed : List M)
      → Steps coalesce l ins outs handed l'
      → to_call l.turn ++ merged coalesce outs ≡ handed ++ to_call l'.turn
  Steps_hand l l' ins outs handed rests = append-nil (to_call l.turn)
  Steps_hand l l' ins outs handed (joins w ms ins' outs' h rest) = Steps_hand _ l' ins' outs' h rest
  Steps_hand l l' ins outs handed (starts w ins' outs' h e rest) =
      ap (λ o. list_of o ++ merged coalesce outs') e ∙ Steps_hand _ l' ins' outs' h rest
  Steps_hand l l' ins outs handed (fails w ins' outs' h e rest) =
      ap (λ o. list_of o ++ merged coalesce outs') e ∙ Steps_hand _ l' ins' outs' h rest
  Steps_hand l l' ins outs handed (calls m ins' outs' h rest) =
      ap (λ xs. m ∷ xs) (Steps_hand _ l' ins' outs' h rest)
  Steps_hand l l' ins outs handed (ends rest) = Steps_hand _ l' ins outs handed rest

  pub stays : {l : Line M} → Reaches coalesce [] [] l l
  stays = ([], rests)

  Steps_trans :
      (a b c : Line M) (ins : List M) (outs : List (List M)) (handed ins' : List M)
      (outs' : List (List M)) (handed' : List M)
      → Steps coalesce a ins outs handed b
      → Steps coalesce b ins' outs' handed' c
      → Steps coalesce a (ins ++ ins') (outs ++ outs') (handed ++ handed') c
  Steps_trans a b c ins outs handed ins' outs' handed' rests r' = r'
  Steps_trans a b c ins outs handed ins' outs' handed' (joins w ms i o h r) r' =
      subst (λ xs. Steps coalesce a xs (o ++ outs') (h ++ handed') c) (sym (append_assoc ms i ins'))
        (joins w ms (i ++ ins') (o ++ outs') (h ++ handed')
          (Steps_trans _ b c i o h ins' outs' handed' r r'))
  Steps_trans a b c ins outs handed ins' outs' handed' (starts w i o h e r) r' =
      starts w (i ++ ins') (o ++ outs') (h ++ handed') e
        (Steps_trans _ b c i o h ins' outs' handed' r r')
  Steps_trans a b c ins outs handed ins' outs' handed' (fails w i o h e r) r' =
      fails w (i ++ ins') (o ++ outs') (h ++ handed') e
        (Steps_trans _ b c i o h ins' outs' handed' r r')
  Steps_trans a b c ins outs handed ins' outs' handed' (calls m i o h r) r' =
      calls m (i ++ ins') (o ++ outs') (h ++ handed')
        (Steps_trans _ b c i o h ins' outs' handed' r r')
  Steps_trans a b c ins outs handed ins' outs' handed' (ends r) r' =
      ends (Steps_trans _ b c ins outs handed ins' outs' handed' r r')

  pub Reaches_trans :
      (a b c : Line M) (ins handed ins' handed' : List M)
      → Reaches coalesce ins handed a b
      → Reaches coalesce ins' handed' b c
      → Reaches coalesce (ins ++ ins') (handed ++ handed') a c
  Reaches_trans a b c ins handed ins' handed' (outs, r) (outs', r') =
      (outs ++ outs', Steps_trans a b c ins outs handed ins' outs' handed' r r')

  pub messages-append : (es fs : List (Entry M)) → messages (es ++ fs) ≡ messages es ++ messages fs
  messages-append [] fs = refl
  messages-append (e ∷ es) fs = ap (λ ms. e.message ∷ ms) (messages-append es fs)

  empty_queue : (es : List (Entry M)) → is_empty es ≡ true → es ≡ []
  empty_queue [] e = refl
  empty_queue (x ∷ es) e = ground (arith, e)

  no_turn : (t : Option (Turn M)) → is_some t ≡ false → t ≡ none
  no_turn none e = refl
  no_turn (some t) e = ground (arith, e)

  idle_line : (s : Session M) → is_idle s ≡ true → line_of (or_new none) ≡ line_of s
  unfolding is_idle
  idle_line s e = ground (arith, e, empty_queue s.pending, no_turn s.running)

  line-put :
      (d : Dispatcher M) (key : Text) (b : Budget) (s : Session M)
      → line_of (session_of (put d key b s) key) ≡ line_of s
  line-put d key b s =
      ap (λ o. line_of (or_new o)) (put_found d key b s) ∙ elim (Bool-cases (is_idle s)) [
        | inl idle ↦ rw idle (idle_line s idle)
        | inr busy ↦ rw busy refl
      ]

  -- A change of one session is a change of its line only.
  pub put-Reaches :
      (d : Dispatcher M) (key read : Text) (b : Budget) (s : Session M) (ins handed : List M)
      → Reaches coalesce ins handed (line_of (session_of d key)) (line_of s)
      → Reaches coalesce
          (at key read ins)
          (at key read handed)
          (line_of (session_of d read))
          (line_of (session_of (put d key b s) read))
  put-Reaches d key read b s ins handed r = elim (Bool-cases (key == read)) [
    | inl same ↦ rw same (
        subst
          (λ k.
            Reaches coalesce ins handed (line_of (session_of d k))
              (line_of (session_of (put d key b s) k)))
          ((text_eq_iff key read).0 same)
          (subst (Reaches coalesce ins handed (line_of (session_of d key)))
            (sym (line-put d key b s)) r))
    | inr other ↦ rw other (
        subst (λ o. Reaches coalesce [] [] (line_of (session_of d read)) (line_of (or_new o)))
          (sym (put_other d key read b s other)) stays)
  ]
