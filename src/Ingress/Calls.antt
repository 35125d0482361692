-- ===== src/Ingress/Calls.antt =====
-- Any calls on `CancelledInboundFallbackTombstones`, within its two caps.
use openclaw_webchannel.Common.{
  ℕ, ◌≤◌, ◌≡◌, refl, sym, Option, none, some, List, [], ◌∷◌, Text, text_Eq, ltb, length, lookup,
  IsDistinct, if_lem, append-nil, arith,
}
use openclaw_webchannel.Ingress.{
  CancelledInboundFallbackTombstones, new_tombstones, scoped, is_present, delete, make_room,
  entry_bytes, add,
}
use openclaw_webchannel.Ingress.Tombstones.{
  total, IsWithin, room-Leaves, stored-IsWithin, absent-lookup, delete-IsWithin,
}

-- A call, with its key and its account.
pub data Call : Type 0 where
  adds deletes : Text → Option Text → Call

module _ (byte_length : Text → ℕ) where
  unfoldable pub step :
      CancelledInboundFallbackTombstones → Call → CancelledInboundFallbackTombstones
  step s (adds key account) = add byte_length s key account
  step s (deletes key account) = (delete s key account).0

  unfoldable pub run :
      CancelledInboundFallbackTombstones → List Call → CancelledInboundFallbackTombstones
  run s [] = s
  run s (call ∷ calls) = run (step s call) calls

  pub add-IsWithin :
      (s : CancelledInboundFallbackTombstones) (key : Text) (account : Option Text)
      → 1 ≤ s.cap
      → IsWithin s
      → IsWithin (add byte_length s key account)
  unfolding add
  add-IsWithin s key account pos v =
      let name = scoped key account in
      let n = entry_bytes byte_length name in
      let left = make_room s.cap s.byte_cap n s.keys s.bytes in
      if_lem IsWithin (is_present (lookup name s.keys)) _ _ (λ here. v)
        (λ new.
          if_lem IsWithin (ltb s.byte_cap n) _ _ (λ large. v)
            (λ small. stored-IsWithin s name n [] left v (absent-lookup _ new) (
              room-Leaves s n s.keys [] v (sym (append-nil s.keys)) (omega arith)
                (ground (arith, small)))))

  pub add_limits :
      (s : CancelledInboundFallbackTombstones) (key : Text) (account : Option Text)
      → ((add byte_length s key account).cap ≡ s.cap)
        × ((add byte_length s key account).byte_cap ≡ s.byte_cap)
  unfolding add
  add_limits s key account =
      let name = scoped key account in
      let n = entry_bytes byte_length name in
      let Same : CancelledInboundFallbackTombstones → Type 0 =
        λ r. (r.cap ≡ s.cap) × (r.byte_cap ≡ s.byte_cap) in
      if_lem Same (is_present (lookup name s.keys)) _ _ (λ here. (refl, refl))
        (λ new. if_lem Same (ltb s.byte_cap n) _ _ (λ large. (refl, refl)) (λ small. (refl, refl)))

  delete_cap :
      (s : CancelledInboundFallbackTombstones) (key : Text) (account : Option Text)
      → ((delete s key account).0.cap ≡ s.cap) × ((delete s key account).0.byte_cap ≡ s.byte_cap)
  unfolding delete
  delete_cap s key none = ground arith
  delete_cap s key (some account) = ground arith

  step-IsWithin :
      (s : CancelledInboundFallbackTombstones) (call : Call)
      → 1 ≤ s.cap
      → IsWithin s
      → IsWithin (step s call)
  unfolding step
  step-IsWithin s (adds key account) pos v = add-IsWithin s key account pos v
  step-IsWithin s (deletes key account) pos v = delete-IsWithin s key account v

  step_cap :
      (s : CancelledInboundFallbackTombstones) (call : Call)
      → ((step s call).cap ≡ s.cap) × ((step s call).byte_cap ≡ s.byte_cap)
  unfolding step
  step_cap s (adds key account) = add_limits s key account
  step_cap s (deletes key account) = delete_cap s key account

  pub run-IsWithin :
      (s : CancelledInboundFallbackTombstones) (calls : List Call)
      → 1 ≤ s.cap
      → IsWithin s
      → IsWithin (run s calls)
  unfolding run
  run-IsWithin s [] pos v = v
  run-IsWithin s (call ∷ calls) pos v =
      run-IsWithin (step s call) calls (omega (arith, step_cap s call)) (step-IsWithin s call pos v)

  pub run_cap :
      (s : CancelledInboundFallbackTombstones) (calls : List Call)
      → ((run s calls).cap ≡ s.cap) × ((run s calls).byte_cap ≡ s.byte_cap)
  unfolding run
  run_cap s [] = (refl, refl)
  run_cap s (call ∷ calls) = ground (arith, run_cap (step s call) calls, step_cap s call)

  pub new-IsWithin : (cap byte_cap : ℕ) → IsWithin (new_tombstones cap byte_cap)
  new-IsWithin cap byte_cap = record {
    distinct = tt;
    counted = refl;
    capped = omega arith;
    fits = omega arith;
  }

  -- Whatever is added and deleted, tombstones that start empty with a positive cap have at most
  -- `cap` entries, no name twice, and count at most `byteCap` bytes, exactly those of the entries.
  pub run_within :
      (cap byte_cap : ℕ) (calls : List Call)
      → 1 ≤ cap
      → (length (run (new_tombstones cap byte_cap) calls).keys ≤ cap)
        × IsDistinct (run (new_tombstones cap byte_cap) calls).keys
        × ((run (new_tombstones cap byte_cap) calls).bytes ≤ byte_cap)
        × ((run (new_tombstones cap byte_cap) calls).bytes
            ≡ total (run (new_tombstones cap byte_cap) calls).keys)
  run_within cap byte_cap calls pos =
      let v = run-IsWithin (new_tombstones cap byte_cap) calls pos (new-IsWithin cap byte_cap) in
      let same = run_cap (new_tombstones cap byte_cap) calls in
      (omega (arith, v.capped, same), v.distinct, omega (arith, v.fits, same), v.counted)
