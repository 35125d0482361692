-- ===== src/Ledger.antt =====
-- packages/saas/src/browser-credential-ledger.ts: the issuance ledger and its in-memory
-- implementation. `thrown` is a typed error; the clock, floored, is an argument; the base64url and
-- JSON of a cursor are the parameters `encode` and `decode`.
pub mod Records
pub mod Life
mod Tests
use openclaw_webchannel.Common.{
  ℕ, zero, suc, ◌+◌, Bool, true, false, not, ◌&&◌, ◌||◌, Option, none, some, List, [], ◌∷◌, ◌++◌,
  map, Text, codes, text_Eq, nat_Eq, ltb, leb, ◌==◌, if◌then◌else◌, length, keep, take, lookup,
  insert, erase,
}

abbrev pub max_timestamp_sec : ℕ
max_timestamp_sec = 4_102_444_800

pub data BrowserCredentialStatus : Type 0 where
  active revoked : BrowserCredentialStatus

pub record BrowserCredentialIssuance : Type 0 where
  pub tenant : Text
  pub account_context : Text
  pub nats_account_public_key : Text
  pub peer_id : Text
  pub user_pubkey : Text
  pub issued_at_sec : ℕ
  pub expires_at_sec : Option ℕ

pub record BrowserCredentialRecord : Type 0 where
  pub issuance : BrowserCredentialIssuance
  pub status : BrowserCredentialStatus
  pub revoked_at_sec : Option ℕ

pub data BrowserCredentialScope : Type 0 where
  credential : Text → BrowserCredentialScope
  peer : Text → Text → BrowserCredentialScope
  account : Text → BrowserCredentialScope

pub record BrowserCredentialQuery : Type 0 where
  pub status : Option BrowserCredentialStatus
  pub limit : Option ℕ
  pub cursor : Option Text

pub record BrowserCredentialPage : Type 0 where
  pub records : List BrowserCredentialRecord
  pub cursor : Option Text

pub record MarkRevokedResult : Type 0 where
  pub marked : ℕ
  pub already_revoked : ℕ

pub data LedgerError : Type 0 where
  collision_error cursor_error input_error : LedgerError

pub data Result {ℓ} (A : Type ℓ) : Type ℓ where
  returned : A → Result A
  thrown : LedgerError → Result A

abbrev pub is_timestamp_sec : ℕ → Bool
is_timestamp_sec t = ltb 0 t && ltb t max_timestamp_sec

abbrev pub is_identifier : Text → Bool
is_identifier [] = false
is_identifier (c ∷ cs) = true

-- `assertBrowserCredentialIssuance`, true where it throws nothing.
abbrev pub is_valid_issuance : BrowserCredentialIssuance → Bool
is_valid_issuance i =
    is_identifier i.tenant
    && is_identifier i.account_context
    && is_identifier i.nats_account_public_key
    && is_identifier i.peer_id
    && is_identifier i.user_pubkey
    && is_timestamp_sec i.issued_at_sec
    && elim i.expires_at_sec [ none ↦ true | some t ↦ is_timestamp_sec t ]

abbrev pub is_valid_scope : BrowserCredentialScope → Bool
is_valid_scope (credential key) = is_identifier key
is_valid_scope (peer nats id) = is_identifier nats && is_identifier id
is_valid_scope (account nats) = is_identifier nats

-- The separator is the code unit 0.
pub scope_key : BrowserCredentialScope → Text
scope_key (credential key) = codes "c" ++ (0 ∷ key)
scope_key (peer nats id) = codes "p" ++ (0 ∷ (nats ++ (0 ∷ id)))
scope_key (account nats) = codes "a" ++ (0 ∷ nats)

abbrev pub in_scope : BrowserCredentialScope → BrowserCredentialRecord → Bool
in_scope (credential key) r = r.issuance.user_pubkey == key
in_scope (peer nats id) r = r.issuance.nats_account_public_key == nats && r.issuance.peer_id == id
in_scope (account nats) r = r.issuance.nats_account_public_key == nats

-- `<` on strings compares code units.
pub text_lt : Text → Text → Bool
text_lt [] [] = false
text_lt [] (b ∷ bs) = true
text_lt (a ∷ as') [] = false
text_lt (a ∷ as') (b ∷ bs) = ltb a b || (a == b && text_lt as' bs)

-- `byNewestFirst(a, b) < 0`.
pub before : BrowserCredentialRecord → BrowserCredentialRecord → Bool
unfolding text_lt
before a b =
    ltb b.issuance.issued_at_sec a.issuance.issued_at_sec
    || (a.issuance.issued_at_sec == b.issuance.issued_at_sec
        && text_lt a.issuance.user_pubkey b.issuance.user_pubkey)

-- `Array.prototype.sort` by `byNewestFirst`: stable, so a record goes before the later equals.
pub insert_sorted :
    BrowserCredentialRecord → List BrowserCredentialRecord → List BrowserCredentialRecord
unfolding before
insert_sorted r [] = r ∷ []
insert_sorted r (s ∷ rest) = if before s r then s ∷ insert_sorted r rest else r ∷ s ∷ rest

pub sort_newest_first : List BrowserCredentialRecord → List BrowserCredentialRecord
unfolding insert_sorted
sort_newest_first [] = []
sort_newest_first (r ∷ rest) = insert_sorted r (sort_newest_first rest)

abbrev pub Records : Type 0
Records = List (Text × BrowserCredentialRecord)

pub record MemoryBrowserCredentialLedger : Type 0 where
  pub records : Records
  pub retention_sec : ℕ
  pub default_limit : ℕ

abbrev pub default_ledger : MemoryBrowserCredentialLedger
default_ledger = record { records = []; retention_sec = 2_592_000; default_limit = 200 }

abbrev pub read_clock_sec : ℕ → Result ℕ
read_clock_sec now = if is_timestamp_sec now then returned now else thrown input_error

pub record_issuance :
    MemoryBrowserCredentialLedger
    → BrowserCredentialIssuance
    → MemoryBrowserCredentialLedger × Result BrowserCredentialRecord
record_issuance ledger i =
    if not (is_valid_issuance i)
    then (ledger, thrown input_error)
    else elim (lookup i.user_pubkey ledger.records) [
      | some r ↦ (ledger, thrown collision_error)
      | none ↦
          let r : BrowserCredentialRecord = record {
            issuance = i;
            status = active;
            revoked_at_sec = none;
          } in
          (record ledger { records = insert i.user_pubkey r ledger.records }, returned r)
    ]

abbrev pub get : MemoryBrowserCredentialLedger → Text → Option BrowserCredentialRecord
get ledger key = lookup key ledger.records

pub record CursorPayload : Type 0 where
  pub k : Text
  pub s : Option BrowserCredentialStatus
  pub i : ℕ
  pub u : Text

abbrev pub status_eq : BrowserCredentialStatus → BrowserCredentialStatus → Bool
status_eq active active = true
status_eq active revoked = false
status_eq revoked active = false
status_eq revoked revoked = true

abbrev pub same_status : Option BrowserCredentialStatus → Option BrowserCredentialStatus → Bool
same_status none none = true
same_status none (some b) = false
same_status (some a) none = false
same_status (some a) (some b) = status_eq a b

abbrev pub has_status : Option BrowserCredentialStatus → BrowserCredentialRecord → Bool
has_status none r = true
has_status (some s) r = status_eq r.status s

abbrev pub is_after : Option CursorPayload → BrowserCredentialRecord → Bool
is_after none r = true
is_after (some c) r =
    ltb r.issuance.issued_at_sec c.i
    || (r.issuance.issued_at_sec == c.i && text_lt c.u r.issuance.user_pubkey)

abbrev pub values : Records → List BrowserCredentialRecord
values rows = map (λ e. e.1) rows

abbrev pub last : List BrowserCredentialRecord → Option BrowserCredentialRecord
last [] = none
last (r ∷ []) = some r
last (r ∷ s ∷ rest) = last (s ∷ rest)

-- The records that a query reads, before the page is cut.
pub matched :
    Records
    → BrowserCredentialScope
    → Option BrowserCredentialStatus
    → Option CursorPayload
    → List BrowserCredentialRecord
unfolding text_lt sort_newest_first
matched rows scope status after =
    keep (is_after after)
      (sort_newest_first (keep (λ r. in_scope scope r && has_status status r) (values rows)))

-- `decode` is `none` where the source's `JSON.parse` throws or a field has another type.
module _ (encode : CursorPayload → Text) (decode : Text → Option CursorPayload) where
  abbrev pub decode_cursor :
      Text → BrowserCredentialScope → Option BrowserCredentialStatus → Result CursorPayload
  decode_cursor cursor scope status = elim (decode cursor) [
    | none ↦ thrown cursor_error
    | some c ↦
        if not (c.k == scope_key scope) || not (same_status c.s status)
        then thrown cursor_error
        else returned c
  ]

  pub page_of :
      List BrowserCredentialRecord
      → BrowserCredentialScope
      → Option BrowserCredentialStatus
      → ℕ
      → BrowserCredentialPage
  page_of found scope status limit =
      let records = take limit found in
      record {
        records = records;
        cursor = elim (last records) [
          | none ↦ none
          | some r ↦
              if ltb (length records) (length found)
              then some (
                  encode (record {
                    k = scope_key scope;
                    s = status;
                    i = r.issuance.issued_at_sec;
                    u = r.issuance.user_pubkey;
                  }))
              else none
        ];
      }

  pub list :
      MemoryBrowserCredentialLedger
      → BrowserCredentialScope
      → BrowserCredentialQuery
      → Result BrowserCredentialPage
  unfolding page_of
  list ledger scope query =
      let limit : ℕ = elim query.limit [ none ↦ ledger.default_limit | some n ↦ n ] in
      if not (is_valid_scope scope)
      then thrown input_error
      else if ltb limit 1
      then thrown input_error
      else elim query.cursor [
        | none ↦
            returned
              (page_of (matched ledger.records scope query.status none) scope query.status limit)
        | some text ↦ elim (decode_cursor text scope query.status) [
          | thrown e ↦ thrown e
          | returned c ↦ returned (
              page_of (matched ledger.records scope query.status (some c)) scope query.status limit)
        ]
      ]

abbrev pub is_active : BrowserCredentialRecord → Bool
is_active r = status_eq r.status active

abbrev pub revoke_in :
    BrowserCredentialScope → ℕ → BrowserCredentialRecord → BrowserCredentialRecord
revoke_in scope at r =
    if in_scope scope r && is_active r
    then record r { status = revoked; revoked_at_sec = some at }
    else r

-- The staged copy and the two counts.
pub stage : BrowserCredentialScope → ℕ → Records → Records × MarkRevokedResult
stage scope at [] = ([], record { marked = 0; already_revoked = 0 })
stage scope at ((key, r) ∷ rest) =
    let (rows, counts) = stage scope at rest in
    (
      (key, revoke_in scope at r) ∷ rows,
      if not (in_scope scope r)
          then counts
          else if is_active r
          then record counts { marked = counts.marked + 1 }
          else record counts { already_revoked = counts.already_revoked + 1 },
    )

pub mark_revoked :
    MemoryBrowserCredentialLedger
    → BrowserCredentialScope
    → ℕ
    → MemoryBrowserCredentialLedger × Result MarkRevokedResult
unfolding stage
mark_revoked ledger scope at =
    if not (is_valid_scope scope && is_timestamp_sec at)
    then (ledger, thrown input_error)
    else (let (rows, counts) = stage scope at ledger.records in
        (record ledger { records = rows }, returned counts))

abbrev pub is_past : ℕ → ℕ → Option ℕ → Bool
is_past now retention none = false
is_past now retention (some t) = ltb (t + retention) now

abbrev pub is_removable : ℕ → ℕ → BrowserCredentialRecord → Bool
is_removable now retention r =
    is_past now retention r.issuance.expires_at_sec
    || (not (is_active r) && is_past now retention r.revoked_at_sec)

pub sweep_rows : ℕ → ℕ → Records → Records × ℕ
sweep_rows now retention [] = ([], 0)
sweep_rows now retention ((key, r) ∷ rest) =
    let (rows, removed) = sweep_rows now retention rest in
    if is_removable now retention r then (rows, removed + 1) else ((key, r) ∷ rows, removed)

pub sweep : MemoryBrowserCredentialLedger → ℕ → MemoryBrowserCredentialLedger × Result ℕ
unfolding sweep_rows
sweep ledger clock = elim (read_clock_sec clock) [
  | thrown e ↦ (ledger, thrown e)
  | returned now ↦
      let (rows, removed) = sweep_rows now ledger.retention_sec ledger.records in
      (record ledger { records = rows }, returned removed)
]
