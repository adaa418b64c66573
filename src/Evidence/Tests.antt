-- ===== src/Evidence/Tests.antt =====
-- One stored event, and the theorems at it.
use Prim.Native.String.{◌++◌ as text_append}
use blue_team_os.Prelude.{◌≡◌, refl, String, none, some, List, [], ◌∷◌, ◌==◌, if◌then◌else◌}
use blue_team_os.Errors.{ok}
use blue_team_os.Store.Tables.{Db, SecurityEvent, empty_db}
use blue_team_os.Store.Action.{Source, flush}
use blue_team_os.Evidence.{
  event_with, register_event_evidence, verify_evidence, intact, mismatch, acquire,
}
use blue_team_os.Evidence.Laws.{register_event_evidence-again, verify_evidence-register}

abbrev source : Source
source = record {
  new_id = λ prefix n. text_append prefix "_1";
  utcnow = λ n. n;
  isoformat = λ n. "t";
}

abbrev event_hashed : String → SecurityEvent
event_hashed raw_hash = record {
  id = "evt_1";
  tenant_id = "ten_a";
  timestamp = 5;
  ingested_at = 6;
  source = "idp";
  source_type = "identity";
  event_type = "login";
  category = "authentication";
  action = none;
  outcome = some "failure";
  src_ip = none;
  user_name = some "alice";
  idempotency_key = none;
  raw_hash = raw_hash;
  payload = [];
}

abbrev db : Db
db = record empty_db { events = event_hashed "abc" ∷ [] }

abbrev later : Db
later = (register_event_evidence source "ten_a" "evt_1" "usr_1" db).1

registered : register_event_evidence source "ten_a" "evt_1" "usr_1" db ≡ (ok "evi_1", later)
unfolding register_event_evidence acquire flush
registered = refl

register_event_evidence-again_example :
    register_event_evidence source "ten_a" "evt_1" "usr_2" later ≡ (ok "evi_1", later)
register_event_evidence-again_example =
    register_event_evidence-again source "ten_a" "evt_1" "usr_1" "usr_2" db "evi_1" later registered

verify_evidence-register_example :
    (event : SecurityEvent) × (event_with "ten_a" "evt_1" db.events ≡ event ∷ [])
    × ((events : List SecurityEvent) (now : SecurityEvent)
        → event_with "ten_a" "evt_1" events ≡ now ∷ []
        → (verify_evidence "ten_a" "evi_1" (record later { events = events })).0
          ≡ ok (if now.raw_hash == event.raw_hash then intact event.raw_hash else mismatch))
verify_evidence-register_example =
    verify_evidence-register source "ten_a" "evt_1" "usr_1" db "evi_1" later refl tt registered
