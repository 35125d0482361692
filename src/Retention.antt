-- ===== src/Retention.antt =====
-- packages/plugin/src/inbound-retention.ts: the process-wide budget of retained inbound work.
-- A `Symbol` token is a number from a counter. The closures that `tryReserve` and `hold` return
-- are handles into `Budget.reservations` and `Reservation.active`, which keep what they capture.
pub mod Tally
pub mod Valid
pub mod Release
pub mod Steps
pub mod Handles
pub mod Transfer
pub mod Run
pub mod Effects
pub mod Deferral
pub mod InUse
mod Tests
use openclaw_webchannel.Common.{
  ℕ, suc, ◌+◌, ◌-◌, ◌*◌, ◌^◌, Bool, true, false, not, ◌&&◌, ◌||◌, Option, none, some, List, [], ◌∷◌,
  ◌++◌, ltb, leb, ◌==◌, nat_Eq, if◌then◌else◌, length, get_elem?, set, lookup, insert, erase,
}

pub data RetentionOwner : Type 0 where
  debounce_waiting debounce_inflight pending : RetentionOwner

pub data RetentionLimitReason : Type 0 where
  session_message_count session_byte_count process_message_count process_byte_count :
      RetentionLimitReason

pub record BusyTurnLimits : Type 0 where
  pub max_messages_per_session : ℕ
  pub max_bytes_per_session : ℕ
  pub max_messages_per_process : ℕ
  pub max_bytes_per_process : ℕ

abbrev pub default_busy_turn_limits : BusyTurnLimits
default_busy_turn_limits = record {
  max_messages_per_session = 32;
  max_bytes_per_session = 1 * 1024 * 1024;
  max_messages_per_process = 1_024;
  max_bytes_per_process = 32 * 1024 * 1024;
}

pub record RetentionUsage : Type 0 where
  pub messages : ℕ
  pub bytes : ℕ

abbrev pub zero_usage : RetentionUsage
zero_usage = record { messages = 0; bytes = 0 }

-- The process-wide pair `processUsage`, `processBreakdown` has the same shape.
pub record SessionState : Type 0 where
  pub usage : RetentionUsage
  pub breakdown : RetentionOwner → RetentionUsage

abbrev pub zero_state : SessionState
zero_state = record { usage = zero_usage; breakdown = λ o. zero_usage }

pub record Reservation : Type 0 where
  pub token : ℕ
  pub charged_bytes : ℕ
  pub owner : RetentionOwner
  pub released : Bool
  pub release_requested : Bool
  pub holds : ℕ
  pub active : List Bool

pub record Budget : Type 0 where
  pub limits : BusyTurnLimits
  pub sessions : List (ℕ × SessionState)
  pub process : SessionState
  pub reservations : List Reservation
  pub next_token : ℕ

-- What the source throws; `dangling` is a handle that was never returned.
pub data Error : Type 0 where
  type_error no_session_usage usage_underflow hold_after_release already_released released_twice
        hold_underflow dangling :
      Error

pub data Result {ℓ} (A : Type ℓ) : Type ℓ where
  ok : A → Result A
  throw : Error → Result A

infixl 5 ◌>>=◌
abbrev pub ◌>>=◌ {ℓ κ} : {A : Type ℓ} {B : Type κ} → Result A → (A → Result B) → Result B
ok a >>= f = f a
throw e >>= f = throw e

abbrev pub or_throw {ℓ} : {A : Type ℓ} → Option A → Error → Result A
or_throw none e = throw e
or_throw (some a) e = ok a

pub data ReserveResult : Type 0 where
  accepted : ℕ → ReserveResult
  rejected : RetentionLimitReason → ReserveResult

-- `Number.MAX_SAFE_INTEGER`.
abbrev pub max_safe_integer : ℕ
max_safe_integer = 2 ^ 53 - 1

abbrev pub owner_eq : RetentionOwner → RetentionOwner → Bool
owner_eq debounce_waiting debounce_waiting = true
owner_eq debounce_inflight debounce_inflight = true
owner_eq pending pending = true
owner_eq _ _ = false

pub validate_limits : BusyTurnLimits → Bool
validate_limits l =
    leb l.max_messages_per_session max_safe_integer
    && leb l.max_bytes_per_session max_safe_integer
    && leb l.max_messages_per_process max_safe_integer
    && leb l.max_bytes_per_process max_safe_integer

abbrev pub empty : BusyTurnLimits → Budget
empty l = record {
  limits = l;
  sessions = [];
  process = zero_state;
  reservations = [];
  next_token = 0;
}

-- The constructor.
pub init : BusyTurnLimits → Result Budget
unfolding validate_limits
init l = if validate_limits l then ok (empty l) else throw type_error

pub create_session_token : Budget → Budget × ℕ
create_session_token b = (record b { next_token = suc b.next_token }, b.next_token)

unfoldable pub add_usage : RetentionUsage → ℕ → RetentionUsage
add_usage u c = record { messages = u.messages + 1; bytes = u.bytes + c }

-- With `assertUsage` on the result.
unfoldable pub sub_usage : RetentionUsage → ℕ → Result RetentionUsage
sub_usage u c =
    if leb 1 u.messages && leb c u.bytes
    then ok (record { messages = u.messages - 1; bytes = u.bytes - c })
    else throw usage_underflow

abbrev put_owner :
    RetentionOwner
    → RetentionUsage
    → (RetentionOwner → RetentionUsage)
    → RetentionOwner
    → RetentionUsage
put_owner o u rows p = if owner_eq o p then u else rows p

-- `adjust` and `adjustBreakdown` on one of the two states that they change, with delta 1.
unfoldable pub charge : SessionState → RetentionOwner → ℕ → SessionState
unfolding add_usage
charge st o c = record {
  usage = add_usage st.usage c;
  breakdown = put_owner o (add_usage (st.breakdown o) c) st.breakdown;
}

-- With delta -1.
unfoldable pub uncharge : SessionState → RetentionOwner → ℕ → Result SessionState
unfolding sub_usage
uncharge st o c = do
  total ← sub_usage st.usage c
  row ← sub_usage (st.breakdown o) c
  ok (record { usage = total; breakdown = put_owner o row st.breakdown })

-- `adjustBreakdown` from one owner to another; the totals stay.
pub move_row : SessionState → RetentionOwner → RetentionOwner → ℕ → Result SessionState
unfolding sub_usage add_usage
move_row st o next c = do
  row ← sub_usage (st.breakdown o) c
  let rows = put_owner o row st.breakdown
  ok (record st { breakdown = put_owner next (add_usage (rows next) c) rows })

abbrev pub or_zero : Option SessionState → SessionState
or_zero none = zero_state
or_zero (some st) = st

unfoldable pub session_state : Budget → ℕ → SessionState
session_state b s = or_zero (lookup s b.sessions)

-- The four tests of `tryReserve`, in its order.
unfoldable pub limit_reason :
    BusyTurnLimits → RetentionUsage → RetentionUsage → ℕ → Option RetentionLimitReason
limit_reason l current total c =
    if ltb l.max_messages_per_session (current.messages + 1)
    then some session_message_count
    else if ltb l.max_bytes_per_session (current.bytes + c)
    then some session_byte_count
    else if ltb l.max_messages_per_process (total.messages + 1)
    then some process_message_count
    else if ltb l.max_bytes_per_process (total.bytes + c)
    then some process_byte_count
    else none

abbrev pub fresh : ℕ → ℕ → RetentionOwner → Reservation
fresh s c o = record {
  token = s;
  charged_bytes = c;
  owner = o;
  released = false;
  release_requested = false;
  holds = 0;
  active = [];
}

unfoldable pub admit : Budget → ℕ → ℕ → RetentionOwner → Budget
admit b s c o = record b {
  sessions = insert s (charge (session_state b s) o c) b.sessions;
  process = charge b.process o c;
  reservations = b.reservations ++ fresh s c o ∷ [];
}

unfoldable pub try_reserve : Budget → ℕ → ℕ → RetentionOwner → Result (Budget × ReserveResult)
try_reserve b s c o =
    if leb c max_safe_integer
    then elim (limit_reason b.limits (session_state b s).usage b.process.usage c) [
      | some reason ↦ ok (b, rejected reason)
      | none ↦ ok (admit b s c o, accepted (length b.reservations))
    ]
    else throw type_error

-- `reserve`: the handle alone, if there is one.
pub reserve : Budget → ℕ → ℕ → RetentionOwner → Result (Budget × Option ℕ)
reserve b s c o = elim (try_reserve b s c o) [
  | throw e ↦ throw e
  | ok (b', accepted handle) ↦ ok (b', some handle)
  | ok (b', rejected reason) ↦ ok (b', none)
]

-- `this.sessions` after `state` has changed: a session with no usage left is forgotten.
unfoldable pub put_session : ℕ → SessionState → List (ℕ × SessionState) → List (ℕ × SessionState)
put_session s st m =
    if st.usage.messages == 0 && st.usage.bytes == 0 then erase s m else insert s st m

-- `r` is the reservation as it stands when the closure is called.
unfoldable pub finalize_release : Budget → ℕ → Reservation → Result Budget
finalize_release b i r = do
  st ← or_throw (lookup r.token b.sessions) no_session_usage
  st' ← uncharge st r.owner r.charged_bytes
  total ← uncharge b.process r.owner r.charged_bytes
  ok (record b {
    sessions = put_session r.token st' b.sessions;
    process = total;
    reservations = set b.reservations i (record r { released = true });
  })

abbrev store : Budget → ℕ → Reservation → Budget
store b i r = record b { reservations = set b.reservations i r }

pub hold_with : Budget → ℕ → Reservation → Result (Budget × ℕ)
hold_with b i r =
    if r.released || r.release_requested
    then throw hold_after_release
    else ok (
      store b i (record r { holds = suc r.holds; active = r.active ++ true ∷ [] }),
      length r.active,
    )

pub hold : Budget → ℕ → Result (Budget × ℕ)
unfolding hold_with
hold b i = do r ← or_throw (get_elem? b.reservations i) dangling; hold_with b i r

pub settle_hold : Budget → ℕ → Reservation → Result Budget
settle_hold b i r =
    if r.holds == 0 && r.release_requested && not r.released
    then finalize_release b i r
    else ok (store b i r)

-- The closure that `hold` returns, on its own `active` flag `h`.
pub unhold_with : Budget → ℕ → ℕ → Reservation → Bool → Result Budget
unhold_with b i h r false = ok b
unhold_with b i h r true =
    if leb 1 r.holds
    then settle_hold b i (record r { holds = r.holds - 1; active = set r.active h false })
    else throw hold_underflow

pub unhold : Budget → ℕ → ℕ → Result Budget
unfolding unhold_with
unhold b i h = do
  r ← or_throw (get_elem? b.reservations i) dangling
  flag ← or_throw (get_elem? r.active h) dangling
  unhold_with b i h r flag

pub transfer_with : Budget → ℕ → RetentionOwner → Reservation → Result Budget
transfer_with b i next r =
    if r.released || r.release_requested
    then throw already_released
    else if owner_eq next r.owner
    then ok b
    else (do
      st ← or_throw (lookup r.token b.sessions) no_session_usage
      st' ← move_row st r.owner next r.charged_bytes
      total ← move_row b.process r.owner next r.charged_bytes
      ok (record b {
        sessions = insert r.token st' b.sessions;
        process = total;
        reservations = set b.reservations i (record r { owner = next });
      }))

pub transfer : Budget → ℕ → RetentionOwner → Result Budget
unfolding transfer_with
transfer b i next = do r ← or_throw (get_elem? b.reservations i) dangling; transfer_with b i next r

-- The shared tail of `requestRelease` and `release`.
unfoldable pub begin_release : Budget → ℕ → Reservation → Result Budget
begin_release b i r =
    let r' = record r { release_requested = true } in
    if r.holds == 0 then finalize_release b i r' else ok (store b i r')

unfoldable pub request_release : Budget → ℕ → Result Budget
request_release b i = do
  r ← or_throw (get_elem? b.reservations i) dangling
  if r.release_requested then ok b else if r.released then ok b else begin_release b i r

pub release : Budget → ℕ → Result Budget
release b i = do
  r ← or_throw (get_elem? b.reservations i) dangling
  if r.released || r.release_requested then throw released_twice else begin_release b i r
