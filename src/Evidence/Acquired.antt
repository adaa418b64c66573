-- ===== src/Evidence/Acquired.antt =====
-- What register_event_evidence leaves behind, on each of its ends.
use blue_team_os.Prelude.{
  ◌+◌, ◌≡◌, refl, String, true, false, List, [], ◌∷◌, ◌++◌, inl, inr, Bool-cases,
}
use blue_team_os.Errors.{Error, Result, ok, err, runtime_error}
use blue_team_os.Store.Tables.{Db, SecurityEvent}
use blue_team_os.Store.Tables
use blue_team_os.Store.Action.{Action, Source, clashes, flush}
use blue_team_os.Evidence.{
  source_of, evidence_from, event_with, sealed_evidence, acquire, register_event_evidence,
  source_missing,
}

module _ (source : Source) (tenant_id event_id collector_identity : String) where
  abbrev pub new_row : SecurityEvent → Db → Tables.Evidence
  new_row event db =
      sealed_evidence (source.new_id "evi" db.drawn) tenant_id event_id event collector_identity
        (source.utcnow (db.drawn + 1)) (source.isoformat (source.utcnow (db.drawn + 1 + 1)))
        (source.isoformat (source.utcnow (db.drawn + 1 + 1 + 1)))
        (source.isoformat (source.utcnow (db.drawn + 1 + 1 + 1 + 1)))

  abbrev pub with_evidence : SecurityEvent → Db → Db
  with_evidence event db = record db {
    evidence = db.evidence ++ new_row event db ∷ [];
    findings = db.findings ++ db.added_findings;
    alerts = db.alerts ++ db.added_alerts;
    added_findings = [];
    added_alerts = [];
    drawn = db.drawn + 1 + 1 + 1 + 1 + 1;
  }

  abbrev several : Error
  several = runtime_error "Multiple rows were found"

  acquire-flushes :
      (event : SecurityEvent) (db : Db)
      → clashes db.findings db.added_findings ≡ false
      → acquire source tenant_id event_id event collector_identity db
        ≡ (ok (source.new_id "evi" db.drawn), with_evidence event db)
  unfolding acquire flush
  acquire-flushes event db e = rw e refl

  acquire-fails :
      (event : SecurityEvent) (db : Db)
      → clashes db.findings db.added_findings ≡ true
      → (exc : Error) × (later : Db) × (acquire source tenant_id event_id event collector_identity
            db
          ≡ (err exc, later))
  unfolding acquire flush
  acquire-fails event db e = rw e (_, _, refl)

  -- The evidence of the event was there, or it is new and rests on the event, or the call raises.
  pub data Registered (db : Db) (result : Result String × Db) : Type 0 where
    known :
        (row : Tables.Evidence)
        → evidence_from tenant_id (source_of event_id) db.evidence ≡ row ∷ []
        → result ≡ (ok row.id, db)
        → Registered db result
    fresh :
        (event : SecurityEvent)
        → evidence_from tenant_id (source_of event_id) db.evidence ≡ []
        → event_with tenant_id event_id db.events ≡ event ∷ []
        → clashes db.findings db.added_findings ≡ false
        → result ≡ (ok (source.new_id "evi" db.drawn), with_evidence event db)
        → Registered db result
    failed : (exc : Error) (later : Db) → result ≡ (err exc, later) → Registered db result

  abbrev call : Action String
  call = register_event_evidence source tenant_id event_id collector_identity

  from_events :
      (db : Db) (events : List SecurityEvent)
      → evidence_from tenant_id (source_of event_id) db.evidence ≡ []
      → event_with tenant_id event_id db.events ≡ events
      → Registered db (call db)
  unfolding register_event_evidence
  from_events db [] none_yet e = failed (source_missing event_id) db (rw (none_yet, e) refl)
  from_events db (event ∷ []) none_yet e =
      elim (Bool-cases (clashes db.findings db.added_findings)) [
        | inl clash ↦
            let (exc, later, raised) = acquire-fails event db clash in
            failed exc later (rw (none_yet, e) raised)
        | inr clear ↦
            fresh event none_yet e clear (rw (none_yet, e) (acquire-flushes event db clear))
      ]
  from_events db (event ∷ other ∷ events) none_yet e = failed several db (rw (none_yet, e) refl)

  from_rows :
      (db : Db) (rows : List Tables.Evidence)
      → evidence_from tenant_id (source_of event_id) db.evidence ≡ rows
      → Registered db (call db)
  unfolding register_event_evidence
  from_rows db [] e = from_events db _ e refl
  from_rows db (row ∷ []) e = known row e (rw e refl)
  from_rows db (row ∷ other ∷ rows) e = failed several db (rw e refl)

  pub register-cases : (db : Db) → Registered db (call db)
  register-cases db = from_rows db _ refl
