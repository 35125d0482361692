-- ===== src/Chunks/Tests.antt =====
-- Runs of the writer, and the theorems at inputs that meet their hypotheses.
use openclaw_webchannel.Common.{
  ℕ, ◌≡◌, refl, true, List, [], ◌∷◌, map, Text, text_eq, codes, length, sum_by, All, arith,
}
use openclaw_webchannel.Chunks.{
  Options, IngressResultFrame, ack, new_writer, finish, add, flush, keep_or_drop, add_measured,
}
use openclaw_webchannel.Chunks.Bounds.{IsBounded, add_all, frames-IsBounded}
use openclaw_webchannel.Chunks.Delivery.{ids_of, taken, has_id, finish_delivers}

abbrev two : Options
two = record { type = ack; max_ids = 2; effective_limit = 5 }

abbrev frame_ids : IngressResultFrame → List Text
frame_ids f = f.ids

abbrev weigh : IngressResultFrame → ℕ
weigh f = sum_by length f.ids

abbrev six_ids : List Text
six_ids = codes "a" ∷ codes "bb" ∷ codes "a" ∷ codes "cccc" ∷ codes "dddddd" ∷ codes "a" ∷ []

program : Unit {0}
unfolding text_eq add_all add add_measured flush keep_or_drop finish
program = tt

run_test :
    ((add_all two weigh (λ f. true) new_writer six_ids).1
      ≡ codes "a" ∷ codes "bb" ∷ codes "a" ∷ codes "cccc" ∷ codes "a" ∷ [])
    × (map frame_ids (
          ((finish two weigh (λ f. true) ((add_all two weigh (λ f. true) new_writer six_ids).0)).0
          ).published)
        ≡ (codes "a" ∷ codes "bb" ∷ []) ∷ (codes "cccc" ∷ []) ∷ (codes "a" ∷ []) ∷ [])
unfolding program
run_test = (refl, refl)

frames-IsBounded_example : All (IsBounded two weigh) (
    ((finish two weigh (λ f. true) ((add_all two weigh (λ f. true) new_writer six_ids).0)).0
    ).published)
frames-IsBounded_example = frames-IsBounded two weigh (λ f. true) six_ids (omega arith)

finish_delivers_example :
    let (w, accepted) = add_all two weigh (λ f. true) new_writer six_ids in
    let sent = ids_of ((finish two weigh (λ f. true) w).0).published in
    All (λ id. has_id id sent ≡ true) accepted × (sent ≡ taken w)
finish_delivers_example = finish_delivers two weigh (λ f. true) six_ids
