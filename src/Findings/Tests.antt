-- ===== src/Findings/Tests.antt =====
-- A finding of one stored event, and the theorems at it.
use Prim.Native.String.{◌++◌ as text_append}
use blue_team_os.Prelude.{lookup, ◌+◌, ◌≡◌, refl, true, false, none, some, [], ◌∷◌}
use blue_team_os.Errors.{ok, err, value_error}
use blue_team_os.Detection.Context.{Finding, DetectionContext, DetectionRegistry}
use blue_team_os.Detection.Rules.{meta_of}
use blue_team_os.Detection.Sample.{login}
use blue_team_os.Store.Tables.{Db, empty_db}
use blue_team_os.Store.Tables
use blue_team_os.Store.Action.{Source, flush}
use blue_team_os.Store.Triple.{Returns}
use blue_team_os.Suppression.{create_suppression, concerns, has_expired}
use blue_team_os.Findings.{Codec, consider, evaluate_and_store_findings}
use blue_team_os.Findings.Backed.{IsSound, evaluate_and_store_findings-IsSound}
use blue_team_os.Findings.Skipped.{consider-create_suppression}

abbrev source : Source
source = record {
  new_id = λ prefix n. text_append prefix "_1";
  utcnow = λ n. n;
  isoformat = λ n. "t";
}

abbrev codec : Codec
codec = record { read_event = λ doc. err (value_error "payload"); dump_finding = λ finding. [] }

abbrev finding : Finding
finding = record {
  id = "fnd_1";
  tenant_id = "ten_a";
  rule_id = "rule";
  rule_version = "1.0.0";
  title = "Title";
  description = "";
  severity = "high";
  confidence = 80;
  fingerprint = "rule:ten_a:x";
  mitre_tactics = [];
  mitre_techniques = [];
  event_ids = "evt_1" ∷ [];
  evidence = [];
  explanation = "";
  created_at = 7;
  attributes = ("user", "alice") ∷ [];
}

abbrev registry : DetectionRegistry
registry =
    (
      "rule",
      record {
        meta = meta_of "rule" "Title" "" "high" 80 [] [] [];
        evaluate = λ event context. ok (finding ∷ []);
      },
    )
    ∷ []

abbrev db : Db
db = record empty_db {
  events =
      record {
        id = "evt_1";
        tenant_id = "ten_a";
        timestamp = 5;
        ingested_at = 6;
        source = "idp";
        source_type = "identity";
        event_type = "login";
        category = "authentication";
        action = none;
        outcome = some "failure";
        src_ip = none;
        user_name = some "alice";
        idempotency_key = none;
        raw_hash = "abc";
        payload = [];
      }
      ∷ [];
}

abbrev context : DetectionContext
context = record { window = []; open_fingerprints = []; scheduled = false }

evaluate_and_store_findings-IsSound_example :
    Returns
      (λ _ later. IsSound later)
      (evaluate_and_store_findings source codec registry "ten_a" "usr_1" (login 8) context db)
evaluate_and_store_findings-IsSound_example =
    evaluate_and_store_findings-IsSound source codec registry "ten_a" "usr_1" (login 8) context db
      (record { sealed = tt; stored = tt; added = tt })

abbrev suppression : Tables.Suppression
suppression = record {
  id = "sup_1";
  tenant_id = "ten_a";
  rule_id = "rule";
  entity_key = "user";
  entity_value = "alice";
  reason = "known";
  created_by = "usr_1";
  expires_at = some 9;
  created_at = 1;
}

abbrev later : Db
later = (create_suppression source "ten_a" "rule" "user" "alice" "known" "usr_1" (some 9) db).1

suppressed :
    create_suppression source "ten_a" "rule" "user" "alice" "known" "usr_1" (some 9) db
    ≡ (ok suppression, later)
unfolding create_suppression flush
suppressed = refl

concerned : concerns finding "user" "alice" ≡ true
unfolding lookup
concerned = refl

alive : has_expired (source.utcnow later.drawn) (some 9) ≡ false
unfolding create_suppression flush
alive = refl

consider-create_suppression_example :
    consider source codec registry "ten_a" "usr_1" finding later
    ≡ (ok false, record later { drawn = later.drawn + 1 })
consider-create_suppression_example =
    consider-create_suppression source "ten_a" "rule" "user" "alice" "known" "usr_1" (some 9) codec
      registry finding db suppression later suppressed refl concerned alive
