-- ===== src/Dispatcher/Lines.antt =====
-- inbound-queue.ts: the steps of a session as steps of its line.
use openclaw_webchannel.Common.{
  ◌==◌, append-nil, ℕ, ◌≡◌, refl, sym, subst, Bool, false, not, ◌&&◌, Option, none, some, List, [],
  ◌∷◌, ◌++◌, Text, text_Eq, lookup, maybe_lem, if_lem,
}
use openclaw_webchannel.Retention.{Budget}
use openclaw_webchannel.Dispatcher.{
  Entry, Lease, Session, Dispatcher, Turn, handling, is_empty, is_some, put, session_of, messages,
  or_new,
}
use openclaw_webchannel.Dispatcher.Turns.{start_turn, drain, finish_drain, settled_session}
use openclaw_webchannel.Dispatcher.Queue.{
  at, Line, line, line_of, Steps, rests, joins, starts, fails, ends, Reaches, stays, Reaches_trans,
  put-Reaches, messages-append,
}

-- A change of the dispatcher, as steps of the line of the session `read`.
pub record Refines {M : Type 0} (coalesce : List M → Option M) (ins handed : List M)
    (d : Dispatcher M) (read : Text) (d' : Dispatcher M) : Type 0 where
  pub moves :
      Reaches coalesce ins handed (line_of (session_of d read)) (line_of (session_of d' read))

module _ {M : Type 0} (coalesce : List M → Option M) where
  abbrev pub session : Option (Turn M) → List (Entry M) → List (ℕ × Lease M) → Bool → Session M
  session t es ls ready = record {
    running = t;
    pending = es;
    open_leases = ls;
    ready_to_drain = ready;
  }

  pub drain_line :
      (b : Budget) (t : Option (Turn M)) (es : List (Entry M)) (ls : List (ℕ × Lease M))
      (ready : Bool)
      → Reaches coalesce [] []
          (line t (messages es))
          (line_of (drain coalesce false b (session t es ls ready)).1)
  unfolding drain start_turn
  drain_line b (some t) es ls ready = stays coalesce
  drain_line b none es (l ∷ ls) ready = stays coalesce
  drain_line b none [] [] ready = stays coalesce
  drain_line b none (e ∷ es) [] ready =
      maybe_lem (λ s. Reaches coalesce [] [] (line none (messages (e ∷ es))) (line_of s)) _ _
        (coalesce (messages (e ∷ es)))
        (λ lost. (messages (e ∷ es) ∷ [], fails _ [] [] [] lost rests))
        (λ m found. (messages (e ∷ es) ∷ [], starts _ [] [] [] found rests))

  abbrev pub LeadsTo : Line M → Budget × Session M → Type 0
  LeadsTo l p = Reaches coalesce [] [] l (line_of p.1)

  -- The line of a session whose queue `finish` has extended, from the line before.
  pub joined :
      (t : Option (Turn M)) (es fs : List (Entry M)) (l : Line M)
      → Reaches coalesce [] [] (line t (messages (es ++ fs))) l
      → Reaches coalesce (messages fs) [] (line t (messages es)) l
  joined t es fs l (outs, r) = (
    outs,
    subst (λ ins. Steps coalesce (line t (messages es)) ins outs [] l) (append-nil (messages fs))
        (joins (messages es) (messages fs) [] outs []
          (subst (λ w. Steps coalesce (line t w) [] outs [] l) (messages-append coalesce es fs) r)),
  )

  pub finish_line :
      (b : Budget) (s : Session M)
      → Reaches coalesce [] [] (line_of s) (line_of (finish_drain coalesce false b s).1)
  finish_line b s =
      if_lem (LeadsTo (line_of s)) (not (is_some s.running) && is_empty s.open_leases) _ _
        (λ e. drain_line b s.running s.pending s.open_leases s.ready_to_drain)
        λ e.
          if_lem (LeadsTo (line_of s)) (s.ready_to_drain && is_empty s.open_leases) _ _
            (λ f. drain_line b s.running s.pending s.open_leases s.ready_to_drain)
            (λ f. stays coalesce)

  pub ended :
      (w : List M) (l : Line M)
      → Reaches coalesce [] [] (line none w) l
      → Reaches coalesce [] [] (line (some handling) w) l
  ended w l (outs, r) = (outs, ends r)

  pub settled_line :
      (b : Budget) (es : List (Entry M)) (ls : List (ℕ × Lease M)) (ready : Bool)
      → LeadsTo
          (line (some handling) (messages es))
          (settled_session coalesce false b (session (some handling) es ls ready))
  settled_line b es ls ready =
      if_lem (LeadsTo (line (some handling) (messages es))) (not (is_empty ls)) _ _
        (λ some_open. ended _ _ (stays coalesce))
        (λ none_open. ended _ _ (drain_line b none es ls ready))

  abbrev pub Quiet : Dispatcher M → Text → Dispatcher M → Type 0
  Quiet d read d' = Refines coalesce [] [] d read d'

  abbrev pub FirstQuiet : {B : Type 0} → Dispatcher M → Text → Dispatcher M × B → Type 0
  FirstQuiet d read p = Quiet d read p.0

  pub same_line : {d d' : Dispatcher M} {read : Text} → d.sessions ≡ d'.sessions → Quiet d read d'
  same_line {d} {read = k} e = record {
    moves =
        subst
          (λ ss. Reaches coalesce [] [] (line_of (session_of d k)) (line_of (or_new (lookup k ss))))
          e (stays coalesce);
  }

  pub put-Refines :
      (d : Dispatcher M) (key read : Text) (b : Budget) (s : Session M) (ins handed : List M)
      → Reaches coalesce ins handed (line_of (session_of d key)) (line_of s)
      → Refines coalesce (at key read ins) (at key read handed) d read (put d key b s)
  put-Refines d key read b s ins handed r = record {
    moves = put-Reaches coalesce d key read b s ins handed r;
  }

  pub at-nil : (key read : Text) → at {M = M} key read [] ≡ []
  at-nil key read = if_lem (λ ms. ms ≡ []) (key == read) _ _ (λ e. refl) (λ e. refl)

  pub put-Quiet :
      (d : Dispatcher M) (key read : Text) (b : Budget) (s : Session M)
      → Reaches coalesce [] [] (line_of (session_of d key)) (line_of s)
      → Quiet d read (put d key b s)
  put-Quiet d key read b s r =
      subst (λ ms. Refines coalesce ms ms d read (put d key b s)) (at-nil key read)
        (put-Refines d key read b s [] [] r)

  pub found-Quiet :
      (d : Dispatcher M) (key read : Text) (b : Budget) (s s' : Session M)
      → lookup key d.sessions ≡ some s
      → Reaches coalesce [] [] (line_of s) (line_of s')
      → Quiet d read (put d key b s')
  found-Quiet d key read b s s' found r =
      put-Quiet d key read b s'
        (subst (λ o. Reaches coalesce [] [] (line_of (or_new o)) (line_of s')) (sym found) r)

  pub Refines-trans :
      (d e f : Dispatcher M) (read : Text) (ins handed ins' handed' : List M)
      → Refines coalesce ins handed d read e
      → Refines coalesce ins' handed' e read f
      → Refines coalesce (ins ++ ins') (handed ++ handed') d read f
  Refines-trans d e f read ins handed ins' handed' r r' = record {
    moves = Reaches_trans coalesce _ _ _ ins handed ins' handed' r.moves r'.moves;
  }

  pub budget-Quiet :
      (d : Dispatcher M) (b : Budget) (read : Text) → Quiet d read (record d { budget = b })
  budget-Quiet d b read = same_line refl
