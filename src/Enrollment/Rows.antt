-- ===== src/Enrollment/Rows.antt =====
-- The rows of the enrollment map: what a search finds after a row is put back.
use openclaw_webchannel.Common.{
  ◌≡◌, sym, ap, ◌∙◌, Bool, true, none, some, [], ◌∷◌, Text, text_Eq, text_eq_iff, ◌==◌, lookup,
  insert, agree_refl, IsDistinct, Bool-cases, inl, inr, arith,
}
use openclaw_webchannel.Enrollment.{EnrollmentRecord, Enrollments, find_row}

none-some : (r : EnrollmentRecord) → none ≡ some r → ⊥
none-some r e = ground arith

-- What a search finds stands under its code, and passes the test.
pub find_row-lookup :
    (p : EnrollmentRecord → Bool) (rows : Enrollments) (code : Text) (r : EnrollmentRecord)
    → IsDistinct rows
    → find_row p rows ≡ some (code, r)
    → lookup code rows ≡ some r
unfolding find_row lookup
find_row-lookup p [] code r d e = absurd (ground arith)
find_row-lookup p ((k, s) ∷ rows) code r d e = elim (Bool-cases (p s)) [
  | inl t ↦ ground (arith, t, agree_refl code, e)
  | inr t ↦
      let rest = find_row-lookup p rows code r d.1 (ground (arith, t, e)) in
      elim (Bool-cases (k == code)) [
        | inl c ↦
            absurd
              (none-some r (sym d.0 ∙ (ap (λ x. lookup x rows) ((text_eq_iff k code).0 c) ∙ rest)))
        | inr c ↦ rw (c, lookup) rest
      ]
]

-- A row put back under its code is found in the place of the one that was found.
pub find_row-insert :
    (p : EnrollmentRecord → Bool) (rows : Enrollments) (code : Text) (r r' : EnrollmentRecord)
    → IsDistinct rows
    → find_row p rows ≡ some (code, r)
    → p r' ≡ true
    → find_row p (insert code r' rows) ≡ some (code, r')
unfolding find_row insert
find_row-insert p [] code r r' d e t' = absurd (ground arith)
find_row-insert p ((k, s) ∷ rows) code r r' d e t' = elim (Bool-cases (p s)) [
  | inl t ↦ ground (arith, t, t', agree_refl code, e)
  | inr t ↦
      let found : find_row p rows ≡ some (code, r) = ground (arith, t, e) in
      elim (Bool-cases (k == code)) [
        | inl c ↦ absurd (
            none-some r (
              sym d.0
              ∙ (ap (λ x. lookup x rows) ((text_eq_iff k code).0 c)
                  ∙ find_row-lookup p rows code r d.1 found)))
        | inr c ↦ rw (c, insert, t, find_row) (find_row-insert p rows code r r' d.1 found t')
      ]
]
