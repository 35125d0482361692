-- ===== src/Dispatcher/Offers.antt =====
-- inbound-queue.ts: what the dispatcher keeps in use, when a lease opens and when it takes a message.
use openclaw_webchannel.Common.{
  ℕ, suc, ◌≡◌, ◌⊎◌, refl, sym, subst, ◌∙◌, inl, inr, true, Option, none, some, Text, text_Eq, arith,
  nat_Eq, nat_eq_iff, lookup, insert, ◌==◌, maybe_lem, if_lem, Bool-cases, keep, lookup-insert,
}
use openclaw_webchannel.Retention.{
  Budget, RetentionLimitReason, Result, ok, throw, ReserveResult, RetentionOwner, try_reserve,
}
use openclaw_webchannel.Retention.Valid.{IsValid}
use openclaw_webchannel.Retention.InUse.{
  InUse, admitted_in_use, Answers, try_reserve-Answers, try_reserve-IsValid,
}
use openclaw_webchannel.Dispatcher.{
  EntryState, Lease, Session, Dispatcher, Offer, BatchLease, lease_of, disposed_lease, is_some,
  is_live, put, put_lease, new_lease, session_of, find_lease, begin_batch, offer, checked_charge,
  offer_unsupplied, offer_to, offer_reserved, store_offer, reject,
}
use openclaw_webchannel.Dispatcher.Holdings.{Carries, Holds, LeaseCarries}
use openclaw_webchannel.Dispatcher.Leaks.{
  HasIds, IsTight, put-IsTight, insert-HasIds, found_id, put_lease-Holds, carries_more, entry,
}

abbrev pub FirstTight : {M B : Type 0} → Dispatcher M × B → Type 0
FirstTight p = IsTight p.0

module _ {M : Type 0} where
  carried_some : (i : ℕ) (o : Option (Lease M)) → LeaseCarries i o → is_some o ≡ true
  carried_some i none c = absurd c
  carried_some i (some l) c = refl

  -- The new lease has an id of its own, and no entries.
  opened : (s : Session M) (n i : ℕ) → HasIds n s → Holds s i → Holds (put_lease s n new_lease) i
  opened s n i old (inl c) = inl c
  opened s n i old (inr (j, c)) = elim (Bool-cases (n == j)) [
    | inl same ↦
        absurd (
          ground
            (arith, old j (carried_some i (lookup j s.open_leases) c), (nat_eq_iff n j).0 same))
    | inr other ↦
        let there : lookup j (insert n new_lease s.open_leases) ≡ lookup j s.open_leases =
          lookup-insert n j new_lease s.open_leases ∙ rw other refl in
        inr (j, subst (LeaseCarries i) (sym there) c)
  ]

  pub begin_batch-IsTight :
      (d : Dispatcher M) (key : Text) → IsTight d → IsTight (begin_batch d key).0
  unfolding begin_batch put
  begin_batch-IsTight d key v =
      if_lem FirstTight d.disposed _ _ (λ e. v)
        λ e.
          let s = session_of d key in
          let d' = record d { next_lease = suc d.next_lease } in
          let v' : IsTight d' = record {
            valid = v.valid;
            covered = v.covered;
            fresh = λ read id h. omega (arith, v.fresh read id h);
          } in
          put-IsTight d' key d.budget (put_lease s d.next_lease new_lease) v' (record {
            valid = v.valid;
            holds = λ i u. inr (u, opened s d.next_lease i (v.fresh key));
            ids =
                insert-HasIds (suc d.next_lease) s d.next_lease new_lease (omega arith)
                  (v'.fresh key);
          })

  -- What an offer leaves: a valid budget, where each reservation in use was in use, or is the
  -- one of the entry that it adds.
  record OfferKeeps (b : Budget) (l : Lease M) (p : Budget × (Lease M × Offer)) : Type 0 where
    pub valid : IsValid p.0
    pub holds :
        (i : ℕ)
        → InUse p.0 i
        → Carries i (keep is_live p.1.0.entries)
          ⊎ (InUse b i
              × (Carries i (keep is_live l.entries) → Carries i (keep is_live p.1.0.entries)))

  same-OfferKeeps :
      (b : Budget) (l : Lease M) (reason : Option RetentionLimitReason) (answer : Offer)
      → IsValid b
      → OfferKeeps b l (b, (record l { tail_rejected = reason }, answer))
  same-OfferKeeps b l reason answer v = record { valid = v; holds = λ i u. inr (u, λ c. c) }

  offer_reserved-Keeps :
      (token c : ℕ) (b : Budget) (l : Lease M) (m : M) (r : Result (Budget × ReserveResult))
      → IsValid b
      → try_reserve b token c RetentionOwner.pending ≡ r
      → Answers b token c RetentionOwner.pending r
      → OfferKeeps b l (offer_reserved b l m r)
  offer_reserved-Keeps token c b l m (throw e) v h a = same-OfferKeeps b l l.tail_rejected _ v
  offer_reserved-Keeps token c b l m (ok (b', ReserveResult.rejected reason)) v h a =
      subst (λ x. OfferKeeps b l (x, reject l reason)) (sym a)
        (same-OfferKeeps b l (some reason) _ v)
  offer_reserved-Keeps token c b l m (ok (b', ReserveResult.accepted n)) v h a = record {
    valid = try_reserve-IsValid b b' token c RetentionOwner.pending (ReserveResult.accepted n) v h;
    holds = λ i u.
        elim (admitted_in_use b token c RetentionOwner.pending i (subst (λ x. InUse x i) a.0 u)) [
          | inl before ↦
              inr (before, λ k. carries_more l.entries i (entry m n EntryState.provisional) (inl k))
          | inr last ↦ inl (
              carries_more l.entries i (entry m n EntryState.provisional)
                (inr (inl (last ∙ sym a.1))))
        ];
  }

  kept_offer :
      (d : Dispatcher M) (key : Text) (id : ℕ) (l : Lease M) (p : Budget × (Lease M × Offer))
      → IsTight d
      → find_lease (session_of d key) id ≡ some l
      → OfferKeeps d.budget l p
      → FirstTight (store_offer d key (session_of d key) id p)
  kept_offer d key id l p v found k =
      let s = session_of d key in
      let here : lookup id (insert id p.1.0 s.open_leases) ≡ some p.1.0 =
        lookup-insert id id p.1.0 s.open_leases ∙ rw ((nat_eq_iff id id).1 refl) refl in
      put-IsTight d key p.0 (put_lease s id p.1.0) v (record {
        valid = k.valid;
        holds = λ i u. elim (k.holds i u) [
          | inl new ↦ inl (inr (id, subst (LeaseCarries i) (sym here) new))
          | inr (old, h) ↦ inr (old, put_lease-Holds s id l p.1.0 i found h)
        ];
        ids = insert-HasIds d.next_lease s id p.1.0 (found_id d key id l v found) (v.fresh key);
      })

  pub offer-IsTight :
      (token : ℕ) (measured : Option ℕ) (d : Dispatcher M) (lease : BatchLease) (m : M)
      → IsTight d
      → IsTight (offer token measured d lease m none).0
  unfolding offer offer_to offer_unsupplied
  offer-IsTight token measured d disposed_lease m v = v
  offer-IsTight token measured d (lease_of key id) m v =
      maybe_lem (FirstTight {B = Offer}) _ _ (find_lease (session_of d key) id) (λ e. v)
        λ l found. kept_offer d key id l _ v found (
          maybe_lem (OfferKeeps d.budget l) _ _ l.tail_rejected
            (λ going.
              maybe_lem (OfferKeeps d.budget l) _ _ (checked_charge measured)
                (λ e.
                  same-OfferKeeps d.budget l (some RetentionLimitReason.session_byte_count) _
                    v.valid)
                (λ c e.
                  offer_reserved-Keeps token c d.budget l m _ v.valid refl
                    (try_reserve-Answers d.budget token c RetentionOwner.pending)))
            (λ reason e. same-OfferKeeps d.budget l l.tail_rejected _ v.valid))
