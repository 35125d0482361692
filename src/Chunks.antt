-- ===== src/Chunks.antt =====
-- packages/plugin/src/ingress-result-chunks.ts: the writer that sends result ids in bounded frames.
-- `measure` is `measureWireBytes` and `publish` is the callback, a function of the frame: whether it
-- was sent. An id is a string; the frames published and the calls of `onTooSmall` are recorded.
pub mod Bounds
pub mod Delivery
mod Tests
use openclaw_webchannel.Common.{
  ℕ, ◌+◌, ◌*◌, ◌/◌, ◌%◌, min, Bool, true, false, not, ◌&&◌, ◌||◌, Option, none, some, List, [], ◌∷◌,
  ◌++◌, Text, text_Eq, nat_Eq, ltb, leb, ◌==◌, if◌then◌else◌, length, any,
}

abbrev pub max_ingress_result_ids : ℕ
max_ingress_result_ids = 64

abbrev pub max_ingress_result_wire_bytes : ℕ
max_ingress_result_wire_bytes = 64 * 1024

abbrev pub max_ingress_result_id_length : ℕ
max_ingress_result_id_length = 128

abbrev pub max_safe_integer : ℕ
max_safe_integer = 9_007_199_254_740_991

pub data FrameType : Type 0 where
  ack inbound_rejected : FrameType

pub record IngressResultFrame : Type 0 where
  pub type : FrameType
  pub ids : List Text

pub base64_url_length : ℕ → ℕ
base64_url_length bytes = bytes / 3 * 4 + (if bytes % 3 == 0 then 0 else bytes % 3 + 1)

pub record Options : Type 0 where
  pub type : FrameType
  pub max_ids : ℕ
  pub effective_limit : ℕ

-- `value ?? fallback`.
abbrev value_or : ℕ → Option ℕ → ℕ
value_or fallback none = fallback
value_or fallback (some n) = n

-- The checks of `createIngressResultChunkWriter` on its numbers; `none` is its TypeError.
pub options_of : FrameType → Option ℕ → Option ℕ → Option ℕ → Option Options
options_of type max_ids max_wire_bytes outbound_limit =
    let ids = value_or max_ingress_result_ids max_ids in
    let limit =
      min (value_or max_ingress_result_wire_bytes max_wire_bytes)
        (value_or max_safe_integer outbound_limit) in
    if ltb ids 1 || ltb max_safe_integer ids || ltb max_safe_integer limit
    then none
    else some (record { type = type; max_ids = ids; effective_limit = limit })

-- `inChunk` is the set of the ids of the chunk.
pub record Writer : Type 0 where
  pub ids : List Text
  pub ok : Bool
  pub published : List IngressResultFrame
  pub too_small : ℕ

abbrev pub new_writer : Writer
new_writer = record { ids = []; ok = true; published = []; too_small = 0 }

abbrev pub in_chunk : Writer → Text → Bool
in_chunk w id = any (λ x. x == id) w.ids

pub data Added : Type 0 where
  answers : Bool → Added
  measurement_invalid : Added

module _ (options : Options) (measure : IngressResultFrame → ℕ)
    (publish : IngressResultFrame → Bool) where
  abbrev pub frame_for : List Text → IngressResultFrame
  frame_for ids = record { type = options.type; ids = ids }

  pub flush : Writer → Writer
  flush w = if length w.ids == 0 then w else record w {
    ids = [];
    ok = publish (frame_for w.ids) && w.ok;
    published = w.published ++ (frame_for w.ids ∷ []);
  }

  -- The last part of `add`: `bytes` are measured for `next`.
  pub keep_or_drop : Writer → List Text → ℕ → Writer × Added
  keep_or_drop w next bytes =
      if ltb options.effective_limit bytes
      then (record w { ok = false; too_small = w.too_small + 1 }, answers false)
      else (record w { ids = next }, answers true)

  -- From the first measurement on.
  pub add_measured : Writer → Text → Writer × Added
  unfolding flush keep_or_drop
  add_measured w id =
      let next = w.ids ++ (id ∷ []) in
      let bytes = measure (frame_for next) in
      if ltb max_safe_integer bytes
      then (w, measurement_invalid)
      else if ltb options.effective_limit bytes && ltb 0 (length w.ids)
      then keep_or_drop (flush w) (id ∷ []) (measure (frame_for (id ∷ [])))
      else keep_or_drop w next bytes

  pub add : Writer → Text → Writer × Added
  unfolding add_measured
  add w id =
      if length id == 0 || ltb max_ingress_result_id_length (length id)
      then (w, answers false)
      else if in_chunk w id
      then (w, answers true)
      else add_measured (if leb options.max_ids (length w.ids) then flush w else w) id

  pub finish : Writer → Writer × Bool
  finish w = (flush w, (flush w).ok)

  pub retained_ids : Writer → ℕ
  retained_ids w = length w.ids
