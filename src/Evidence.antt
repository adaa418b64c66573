-- ===== src/Evidence.antt =====
-- services/api/app/services/evidence.py: evidence of stored events, its custody and its verification.
pub mod Acquired
pub mod Laws
mod Tests
use Prim.Native.String.{◌++◌ as text_append}
use blue_team_os.Prelude.{
  ℕ, String, true, ◌&&◌, not, Option, none, some, List, [], ◌∷◌, ◌++◌, ◌==◌, map, filter, update,
  mem_text, null, if◌then◌else◌, insert, after,
}
use blue_team_os.Errors.{
  Error, Result, ok, err, blue_team_error, not_found, type_error, value_error,
}
use blue_team_os.Value.{ℤ, Value, Doc, text, dict, list_of, items, optional, arr, get_or, truthy}
use blue_team_os.Store.Tables.{SecurityEvent}
use blue_team_os.Store.Tables
use blue_team_os.Store.Action.{
  Action, ◌>>=◌, ◌>>◌, give, throw, ask, write, found_or, one_or_none, flush, Source, new_id,
  utcnow, now_text,
}

abbrev pub source_of : (event_id : String) → String
source_of event_id = text_append "event:" event_id

abbrev pub evidence_from : (tenant_id source : String) → List Tables.Evidence → List Tables.Evidence
evidence_from tenant_id source = filter (λ row. row.tenant_id == tenant_id && row.source == source)

abbrev pub evidence_with : (tenant_id id : String) → List Tables.Evidence → List Tables.Evidence
evidence_with tenant_id id = filter (λ row. row.tenant_id == tenant_id && row.id == id)

abbrev pub event_with : (tenant_id id : String) → List SecurityEvent → List SecurityEvent
event_with tenant_id id = filter (λ row. row.tenant_id == tenant_id && row.id == id)

abbrev pub source_missing : String → Error
source_missing event_id =
    blue_team_error "EVIDENCE_SOURCE_MISSING"
      (text_append "event " (text_append event_id " not found in tenant")) 404

abbrev custody : (action actor_id : String) → (at : String) → Doc → Value
custody action actor_id at more =
    dict (("action", text action) ∷ (("actor_id", text actor_id) ∷ (("timestamp", text at) ∷ more)))

-- The row that register_event_evidence adds; the times are those of its custody.
abbrev pub sealed_evidence :
    (id tenant_id event_id : String)
    → SecurityEvent
    → (collector_identity : String) → (ingested_at : ℕ) → (acquired_at hashed_at sealed_at : String)
    → Tables.Evidence
sealed_evidence id tenant_id event_id event collector_identity ingested_at acquired_at hashed_at
      sealed_at =
    record {
      id = id;
      tenant_id = tenant_id;
      incident_id = none;
      source = source_of event_id;
      acquisition_method = "ingestion";
      original_timestamp = event.timestamp;
      ingested_at = ingested_at;
      collector_identity = collector_identity;
      integrity_hash = event.raw_hash;
      object_uri = none;
      parser_version = "canonical-1.0.0";
      transformation_history = text "normalize.generic" ∷ text "hash" ∷ text "seal" ∷ [];
      confidence_level = 1;
      payload =
          ("event_id", text event_id)
          ∷ ("raw_hash", text event.raw_hash)
          ∷ (
            "chain_of_custody",
            list_of (
                custody "acquired" collector_identity acquired_at []
                ∷ custody "hashed" "system" hashed_at (("integrity_hash", text event.raw_hash) ∷ [])
                ∷ custody "sealed" "system" sealed_at []
                ∷ []),
          )
          ∷ [];
      sealed = true;
    }

module _ (source : Source) where
  -- The part of register_event_evidence behind its two queries.
  unfoldable pub acquire :
      (tenant_id event_id : String) → SecurityEvent → (collector_identity : String) → Action String
  acquire tenant_id event_id event collector_identity = do
    id ← new_id source "evi"
    ingested_at ← utcnow source
    acquired_at ← now_text source
    hashed_at ← now_text source
    sealed_at ← now_text source
    write (λ db. record db {
      evidence =
          db.evidence
          ++ sealed_evidence id tenant_id event_id event collector_identity ingested_at acquired_at
              hashed_at sealed_at
            ∷ [];
    })
    flush
    give id

  unfoldable pub register_event_evidence :
      (tenant_id event_id collector_identity : String) → Action String
  register_event_evidence tenant_id event_id collector_identity = do
    rows ← ask (λ db. evidence_from tenant_id (source_of event_id) db.evidence)
    existing ← one_or_none rows
    elim existing [
      | some row ↦ give row.id
      | none ↦ do
        events ← ask (λ db. event_with tenant_id event_id db.events)
        found ← one_or_none events
        event ← found_or (source_missing event_id) found
        acquire tenant_id event_id event collector_identity
    ]

  -- list(payload.get("chain_of_custody") or [])
  abbrev chain_of : Doc → Action (List Value)
  chain_of payload =
      let chain = get_or payload "chain_of_custody" Value.null in
      elim chain [
        | arr vs ↦ give (items vs)
        | v ↦ if truthy v then throw (type_error "chain_of_custody") else give []
      ]

  unfoldable pub append_custody :
      (tenant_id evidence_id actor_id action : String) → (notes : Option String) → Action Value
  append_custody tenant_id evidence_id actor_id action notes = do
    rows ← ask (λ db. evidence_with tenant_id evidence_id db.evidence)
    found ← one_or_none rows
    row ← found_or (not_found "Evidence not found") found
    chain ← chain_of row.payload
    id ← new_id source "coc"
    at ← now_text source
    let event = dict (
          ("id", text id)
          ∷ ("action", text action)
          ∷ ("actor_id", text actor_id)
          ∷ ("timestamp", text at)
          ∷ ("notes", optional notes)
          ∷ []) in
        do
          write (λ db. record db {
            evidence =
                update (λ e. e.tenant_id == tenant_id && e.id == evidence_id)
                  (λ e. record e {
                    payload = insert "chain_of_custody" (list_of (chain ++ event ∷ [])) e.payload;
                  })
                  db.evidence;
          })
          flush
          give event

-- What verify_evidence answers: intact with the digest, or not intact with a reason.
pub data Verdict : Type 0 where
  intact : (integrity_hash : String) → Verdict
  broken : (reason : String) → Verdict

abbrev pub mismatch : Verdict
mismatch = broken "hash mismatch or missing source"

abbrev pub compare_with : Tables.Evidence → Option SecurityEvent → Verdict
compare_with row none = mismatch
compare_with row (some event) =
    if event.raw_hash == row.integrity_hash then intact row.integrity_hash else mismatch

-- The check of a row, and what follows it.
unfoldable pub verify_row : (tenant_id : String) → Tables.Evidence → Action Verdict
verify_row tenant_id row = elim (after "event:" row.source) [
  | none ↦ give (intact row.integrity_hash)
  | some event_id ↦ do
    events ← ask (λ db. event_with tenant_id event_id db.events)
    event ← one_or_none events
    give (compare_with row event)
]

unfoldable pub verify_evidence : (tenant_id evidence_id : String) → Action Verdict
verify_evidence tenant_id evidence_id = do
  rows ← ask (λ db. evidence_with tenant_id evidence_id db.evidence)
  found ← one_or_none rows
  row ← found_or (not_found "Evidence not found") found
  verify_row tenant_id row

-- packages/schemas/blueteam_schemas/evidence.py
pub record IncidentClaim : Type 0 where
  pub id : String
  pub tenant_id : String
  pub incident_id : Option String
  pub claim_text : String
  pub confidence : ℤ
  pub supporting_evidence_ids : List String
  pub contradicting_evidence_ids : List String
  pub inference_type : ℕ
  pub model_or_rule_version : String
  pub unknowns : List String
  pub analyst_disposition : Option String

abbrev missing_of : (known ids : List String) → List String
missing_of known = filter (λ id. not (mem_text id known))

-- The list of what is missing is left out of the text of the error.
unfoldable pub validate_evidence_refs :
    IncidentClaim → (known_ids : List String) → Result (Unit {0})
validate_evidence_refs claim known =
    if not (null (missing_of known claim.supporting_evidence_ids))
    then err (value_error "unsupported evidence references")
    else if not (null (missing_of known claim.contradicting_evidence_ids))
    then err (value_error "unsupported contradicting evidence references")
    else ok tt

abbrev known_ids : (tenant_id : String) → List Tables.Evidence → List String
known_ids tenant_id rows =
    map (λ (row : Tables.Evidence). row.id) (filter (λ row. row.tenant_id == tenant_id) rows)

-- except ValueError
abbrev as_invalid : Result (Unit {0}) → Result (Unit {0})
as_invalid (err (value_error m)) = err (blue_team_error "INVALID_EVIDENCE_REF" m 422)
as_invalid result = result

unfoldable pub validate_claim : (tenant_id : String) → IncidentClaim → Action (Unit {0})
validate_claim tenant_id claim db =
    (as_invalid (validate_evidence_refs claim (known_ids tenant_id db.evidence)), db)
