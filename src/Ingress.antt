-- ===== src/Ingress.antt =====
-- packages/plugin/src/ingress-dedupe.ts: the keys of messages, the tombstones of cancelled ones, and
-- the filter of a batch. `byte_length` is `Buffer.byteLength` for UTF-8. A key is a `Text`; an id
-- that is no string is `none`. `this.bytes` is a natural number: what is taken off it was added.
pub mod Tombstones
pub mod Calls
pub mod Fresh
pub mod Delivery
pub mod Recent
mod Tests
use openclaw_webchannel.Common.{
  ℕ, ◌+◌, ◌-◌, ◌*◌, Bool, true, false, not, ◌&&◌, ◌||◌, Option, none, some, List, [], ◌∷◌, ◌++◌,
  Text, codes, text_Eq, ltb, leb, if◌then◌else◌, length, lookup, insert, erase, decimal, maybe,
}

abbrev pub max_ingress_dedupe_id_length : ℕ
max_ingress_dedupe_id_length = 128

abbrev pub max_cancelled_inbound_fallback_tombstones : ℕ
max_cancelled_inbound_fallback_tombstones = 256

abbrev pub max_cancelled_inbound_fallback_bytes : ℕ
max_cancelled_inbound_fallback_bytes = 256 * 1024

-- `rest` is what else the item and its message carry.
pub record IngressDedupeItem {ℓ} (A : Type ℓ) : Type ℓ where
  pub peer_id : Text
  pub id : Option Text
  pub rest : A

abbrev pub key_of_id : Text → Option Text → Option Text
key_of_id peer none = none
key_of_id peer (some id) =
    if ltb 0 (length id) && leb (length id) max_ingress_dedupe_id_length
    then some (peer ++ (b':' ∷ id))
    else none

unfoldable pub ingress_dedupe_key {ℓ} : {A : Type ℓ} → IngressDedupeItem A → Option Text
ingress_dedupe_key item = key_of_id item.peer_id item.id

pub record CancelledInboundFallbackTombstones : Type 0 where
  pub keys : List (Text × ℕ)
  pub bytes : ℕ
  pub cap : ℕ
  pub byte_cap : ℕ

abbrev pub new_tombstones : ℕ → ℕ → CancelledInboundFallbackTombstones
new_tombstones cap byte_cap = record { keys = []; bytes = 0; cap = cap; byte_cap = byte_cap }

abbrev pub default_tombstones : CancelledInboundFallbackTombstones
default_tombstones =
    new_tombstones max_cancelled_inbound_fallback_tombstones max_cancelled_inbound_fallback_bytes

abbrev pub account_or_global : Option Text → Text
account_or_global none = codes "global"
account_or_global (some account) = account

unfoldable pub scoped : Text → Option Text → Text
scoped key account =
    let account_id = account_or_global account in
    decimal (length account_id) ++ (b':' ∷ (account_id ++ key))

abbrev pub is_present : Option ℕ → Bool
is_present none = false
is_present (some bytes) = true

-- Whether the second lookup, without an account, finds the key.
abbrev pub has_global : CancelledInboundFallbackTombstones → Text → Option Text → Bool
has_global s key none = false
has_global s key (some account) = is_present (lookup (scoped key none) s.keys)

unfoldable pub has : CancelledInboundFallbackTombstones → Text → Option Text → Bool
has s key account = is_present (lookup (scoped key account) s.keys) || has_global s key account

abbrev pub remove :
    CancelledInboundFallbackTombstones → Text → ℕ → CancelledInboundFallbackTombstones
remove s name bytes = record s { keys = erase name s.keys; bytes = s.bytes - bytes }

abbrev pub delete_global :
    CancelledInboundFallbackTombstones → Text → CancelledInboundFallbackTombstones × Bool
delete_global s key =
    let name = scoped key none in
    maybe (s, false) (λ bytes. (remove s name bytes, true)) (lookup name s.keys)

abbrev pub delete_missing :
    CancelledInboundFallbackTombstones
    → Text
    → Option Text
    → CancelledInboundFallbackTombstones × Bool
delete_missing s key none = (s, false)
delete_missing s key (some account) = delete_global s key

unfoldable pub delete :
    CancelledInboundFallbackTombstones
    → Text
    → Option Text
    → CancelledInboundFallbackTombstones × Bool
delete s key account =
    let name = scoped key account in
    maybe (delete_missing s key account) (λ bytes. (remove s name bytes, true)) (lookup name s.keys)

-- The loop of `add`, for `new` more bytes: the entries that stay, and their bytes.
unfoldable pub make_room : ℕ → ℕ → ℕ → List (Text × ℕ) → ℕ → List (Text × ℕ) × ℕ
make_room cap byte_cap new [] bytes = ([], bytes)
make_room cap byte_cap new (oldest ∷ younger) bytes =
    let left = make_room cap byte_cap new younger (bytes - oldest.1) in
    if leb cap (length (oldest ∷ younger)) || ltb byte_cap (bytes + new)
    then left
    else (oldest ∷ younger, bytes)

module _ (byte_length : Text → ℕ) where
  abbrev pub entry_bytes : Text → ℕ
  entry_bytes name = byte_length name + 48

  unfoldable pub add :
      CancelledInboundFallbackTombstones → Text → Option Text → CancelledInboundFallbackTombstones
  add s key account =
      let name = scoped key account in
      let bytes = entry_bytes name in
      let left = make_room s.cap s.byte_cap bytes s.keys s.bytes in
      if is_present (lookup name s.keys)
      then s
      else if ltb s.byte_cap bytes
      then s
      else record s { keys = insert name bytes left.0; bytes = left.1 + bytes }

-- What `checkAndRecord` answers: `failed` is a rejection.
pub data Answer : Type 0 where
  fresh duplicate failed : Answer

abbrev pub keep_item {ℓ} : {A : Type ℓ} → List A → A → Answer → List A
keep_item survivors item duplicate = survivors
keep_item survivors item fresh = survivors ++ item ∷ []
keep_item survivors item failed = survivors ++ item ∷ []

-- `filterFreshInboundItems`, where `W` is all that `isActive` and `checkAndRecord` read and change.
module _ {ℓ κ} {A : Type ℓ} {W : Type κ} (check : W → Text → W × Answer)
    (is_active : W → Bool) where
  abbrev pub after_check :
      List (IngressDedupeItem A)
      → IngressDedupeItem A
      → W × Answer
      → W × Option (List (IngressDedupeItem A))
  after_check survivors item (w, answer) =
      if not (is_active w) then (w, none) else (w, some (keep_item survivors item answer))

  -- The body of the loop; `none` is the early return.
  abbrev pub filter_item :
      W → List (IngressDedupeItem A) → IngressDedupeItem A → W × Option (List (IngressDedupeItem A))
  filter_item w survivors item =
      if not (is_active w)
      then (w, none)
      else maybe (w, some (survivors ++ item ∷ []))
          (λ key. after_check survivors item (check w key)) (ingress_dedupe_key item)

  unfoldable pub filter_from :
      W → List (IngressDedupeItem A) → List (IngressDedupeItem A) → W × List (IngressDedupeItem A)
  filter_from w survivors [] = (w, survivors)
  filter_from w survivors (item ∷ items) =
      let filtered = filter_item w survivors item in
      maybe (filtered.0, []) (λ kept. filter_from filtered.0 kept items) filtered.1

  abbrev pub filter_fresh_inbound_items :
      W → List (IngressDedupeItem A) → W × List (IngressDedupeItem A)
  filter_fresh_inbound_items w items = filter_from w [] items
