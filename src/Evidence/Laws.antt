-- ===== src/Evidence/Laws.antt =====
-- Registering is idempotent, and what was registered verifies until its source changes.
use blue_team_os.Prelude.{
  ◌≡◌, refl, sym, ap, ◌∙◌, subst, String, Bool, false, ◌&&◌, some, List, [], ◌∷◌, ◌==◌,
  filter-append, filter-nil, All-map, nil≢cons, if◌then◌else◌, arith, eq_refl, All, after,
  after-text_append,
}
use blue_team_os.Errors.{ok}
use blue_team_os.Store.Tables.{Db, SecurityEvent}
use blue_team_os.Store.Tables
use blue_team_os.Store.Action.{Action, Source}
use blue_team_os.Store.Triple.{returns_once, not_both}
use blue_team_os.Evidence.{
  source_of, evidence_from, evidence_with, event_with, register_event_evidence, verify_evidence,
  verify_row, intact, mismatch, compare_with,
}
use blue_team_os.Evidence.Acquired.{known, fresh, failed, register-cases, with_evidence, new_row}

and_false : (b : Bool) → (b && false) ≡ false
and_false b = ground arith

module _ (source : Source) (tenant_id event_id collector : String) where
  abbrev call : (collector_identity : String) → Action String
  call = register_event_evidence source tenant_id event_id

  -- The evidence that is found again.
  found_again :
      (event : SecurityEvent) (db : Db)
      → evidence_from tenant_id (source_of event_id) db.evidence ≡ []
      → evidence_from tenant_id
          (source_of event_id)
          (with_evidence source tenant_id event_id collector event db).evidence
        ≡ new_row source tenant_id event_id collector event db ∷ []
  found_again event db none_yet =
      filter-append _ db.evidence (new_row source tenant_id event_id collector event db ∷ [])
      ∙ rw (none_yet, eq_refl tenant_id, eq_refl (source_of event_id)) refl

  call_known :
      (other : String) (row : Tables.Evidence) (db : Db)
      → evidence_from tenant_id (source_of event_id) db.evidence ≡ row ∷ []
      → call other db ≡ (ok row.id, db)
  unfolding register_event_evidence
  call_known other row db e = rw e refl

  -- Registering an event again, by whoever collects it, returns the same evidence and changes nothing.
  pub register_event_evidence-again :
      (other : String) (db : Db) (id : String) (later : Db)
      → register_event_evidence source tenant_id event_id collector db ≡ (ok id, later)
      → register_event_evidence source tenant_id event_id other later ≡ (ok id, later)
  register_event_evidence-again other db id later h =
      elim (register-cases source tenant_id event_id collector db) [
        | known row e r ↦
            let (same, here) = returns_once _ r h in
            subst (λ d. call other d ≡ (ok id, d)) here
              (call_known other row db e ∙ ap (λ i. (ok i, db)) same)
        | fresh event none_yet there clear r ↦
            let (same, here) = returns_once _ r h in
            subst (λ d. call other d ≡ (ok id, d)) here
              (call_known other (new_row source tenant_id event_id collector event db)
                  (with_evidence source tenant_id event_id collector event db)
                  (found_again event db none_yet)
                ∙ ap (λ i. (ok i, with_evidence source tenant_id event_id collector event db)) same)
        | failed exc other r ↦ absurd (not_both _ h r)
      ]

  abbrev IsNewId : Db → Type 0
  IsNewId db =
      All (λ (row : Tables.Evidence). (row.id == source.new_id "evi" db.drawn) ≡ false) db.evidence

  only_new :
      (event : SecurityEvent) (db : Db)
      → IsNewId db
      → evidence_with tenant_id
          (source.new_id "evi" db.drawn)
          (with_evidence source tenant_id event_id collector event db).evidence
        ≡ new_row source tenant_id event_id collector event db ∷ []
  only_new event db new =
      filter-append _ db.evidence (new_row source tenant_id event_id collector event db ∷ [])
      ∙ rw
          (
            filter-nil (λ row. row.tenant_id == tenant_id && row.id == source.new_id "evi" db.drawn)
                db.evidence
                (All-map _ (λ row h. rw h (and_false (row.tenant_id == tenant_id))) db.evidence
                  new),
            eq_refl tenant_id,
            eq_refl (source.new_id "evi" db.drawn),
          )
          refl

  verify_found :
      (row : Tables.Evidence) (id : String) (db : Db)
      → evidence_with tenant_id id db.evidence ≡ row ∷ []
      → verify_evidence tenant_id id db ≡ verify_row tenant_id row db
  unfolding verify_evidence
  verify_found row id db e = rw e refl

  verify_source :
      (row : Tables.Evidence) (now : SecurityEvent) (db : Db)
      → after "event:" row.source ≡ some event_id
      → event_with tenant_id event_id db.events ≡ now ∷ []
      → verify_row tenant_id row db ≡ (ok (compare_with row (some now)), db)
  unfolding verify_row
  verify_source row now db s there = rw (verify_row, s, there) refl

  -- Evidence that is new verifies against the event that it was made of, as long as the event has the
  -- digest that it had; once it has another one, the evidence is found to be broken. It is supposed that
  -- no evidence has the new identifier yet.
  pub verify_evidence-register :
      (db : Db) (id : String) (later : Db)
      → evidence_from tenant_id (source_of event_id) db.evidence ≡ []
      → IsNewId db
      → register_event_evidence source tenant_id event_id collector db ≡ (ok id, later)
      → (event : SecurityEvent) × (event_with tenant_id event_id db.events ≡ event ∷ [])
        × ((events : List SecurityEvent) (now : SecurityEvent)
            → event_with tenant_id event_id events ≡ now ∷ []
            → (verify_evidence tenant_id id (record later { events = events })).0
              ≡ ok (if now.raw_hash == event.raw_hash then intact event.raw_hash else mismatch))
  verify_evidence-register db id later none_yet new h =
      elim (register-cases source tenant_id event_id collector db) [
        | known row e r ↦ absurd (nil≢cons (sym none_yet ∙ e))
        | fresh event unknown there clear r ↦
            let (same, here) = returns_once _ r h in
            (
              event,
              there,
              λ events now e.
                  let row = new_row source tenant_id event_id collector event db in
                  ap (λ r. r.0)
                    (verify_found row id (record later { events = events })
                        (subst (λ d. evidence_with tenant_id id d.evidence ≡ row ∷ []) here
                          (subst
                            (λ i.
                              evidence_with tenant_id i
                                (with_evidence source tenant_id event_id collector event
                                  db).evidence
                              ≡ row ∷ [])
                            same (only_new event db new)))
                      ∙ verify_source row now (record later { events = events })
                          (after-text_append "event:" event_id) e),
            )
        | failed exc other r ↦ absurd (not_both _ h r)
      ]
