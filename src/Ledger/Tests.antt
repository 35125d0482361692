-- ===== src/Ledger/Tests.antt =====
-- Runs of the ledger, and the theorems at inputs that meet their hypotheses.
use openclaw_webchannel.Common.{
  ◌≡◌, refl, some, none, [], ◌∷◌, codes, text_eq, text_Eq, lookup, insert, ◌⊎◌,
}
use openclaw_webchannel.Ledger.{
  BrowserCredentialIssuance, BrowserCredentialRecord, MemoryBrowserCredentialLedger, revoked, peer,
  account, default_ledger, record_issuance, mark_revoked, sweep, stage, sweep_rows, get,
}
use openclaw_webchannel.Ledger.Records.{issued, get-mark_revoked, Marked}
use openclaw_webchannel.Ledger.Life.{
  issues, marks, sweeps, step, run, never_forgotten, revoked_stays,
}

program : Unit {0}
unfolding text_eq lookup insert record_issuance mark_revoked sweep stage sweep_rows step run
program = tt

abbrev login : BrowserCredentialIssuance
login = record {
  tenant = codes "t";
  account_context = codes "c";
  nats_account_public_key = codes "A";
  peer_id = codes "p";
  user_pubkey = codes "U";
  issued_at_sec = 5;
  expires_at_sec = none;
}

abbrev one : MemoryBrowserCredentialLedger
one = (record_issuance default_ledger login).0

abbrev cut : MemoryBrowserCredentialLedger
cut = (mark_revoked one (peer (codes "A") (codes "p")) 9).0

run_test :
    (get (run one (sweeps 4_000_000_000 ∷ [])) (codes "U") ≡ some (issued login))
    × (get (run cut (sweeps 4_000_000_000 ∷ [])) (codes "U") ≡ none)
unfolding program
run_test = (refl, refl)

never_forgotten_example :
    get
      (run one (sweeps 4_000_000_000 ∷ marks (peer (codes "A") (codes "q")) 7 ∷ issues login ∷ []))
      (codes "U")
    ≡ some (issued login)
unfolding program
never_forgotten_example =
    never_forgotten one
      (sweeps 4_000_000_000 ∷ marks (peer (codes "A") (codes "q")) 7 ∷ issues login ∷ [])
      (codes "U") (issued login) (refl, tt) refl refl refl (refl, (refl, (refl, tt)))

revoked_stays_example :
    get (run cut (marks (account (codes "A")) 11 ∷ issues login ∷ [])) (codes "U")
    ≡ some (record (issued login) { status = revoked; revoked_at_sec = some 9 })
unfolding program
revoked_stays_example =
    revoked_stays cut (marks (account (codes "A")) 11 ∷ issues login ∷ []) (codes "U")
      (record (issued login) { status = revoked; revoked_at_sec = some 9 }) refl refl
      (refl, (refl, tt))

get-mark_revoked_example :
    ((get one (codes "U") ≡ none)
      × (get (mark_revoked one (account (codes "A")) 9).0 (codes "U") ≡ none))
    ⊎ ((r : BrowserCredentialRecord) × (r' : BrowserCredentialRecord) × (get one (codes "U")
          ≡ some r)
        × (get (mark_revoked one (account (codes "A")) 9).0 (codes "U") ≡ some r')
        × Marked (account (codes "A")) 9 r r')
get-mark_revoked_example = get-mark_revoked one (account (codes "A")) 9 (codes "U") refl refl
