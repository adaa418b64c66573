-- ===== src/Suppression.antt =====
-- services/api/app/services/suppression.py: what keeps a finding from being stored.
use blue_team_os.Prelude.{
  ℕ, String, Bool, false, ◌&&◌, ◌||◌, not, Option, none, some, [], ◌∷◌, ◌++◌, ◌==◌, any, ltb,
  lookup,
}
use blue_team_os.Detection.Context.{Finding}
use blue_team_os.Detection.Rules.{or_text}
use blue_team_os.Store.Tables.{DetectionException}
use blue_team_os.Store.Tables
use blue_team_os.Store.Action.{Action, ◌>>=◌, ◌>>◌, give, ask, write, flush, Source, new_id, utcnow}

-- value and value == row.entity_value, for value = finding.attributes.get(row.entity_key) or ""
abbrev pub concerns : Finding → (entity_key entity_value : String) → Bool
concerns finding key value =
    let found = or_text (lookup key finding.attributes) in not (found == "") && found == value

abbrev pub has_expired : (now : ℕ) → Option ℕ → Bool
has_expired now none = false
has_expired now (some time) = ltb time now

abbrev pub suppresses : (tenant_id : String) → Finding → (now : ℕ) → Tables.Suppression → Bool
suppresses tenant_id finding now row =
    (row.tenant_id == tenant_id && row.rule_id == finding.rule_id)
    && (not (has_expired now row.expires_at) && concerns finding row.entity_key row.entity_value)

abbrev pub excepts : (tenant_id : String) → Finding → DetectionException → Bool
excepts tenant_id finding row =
    (row.tenant_id == tenant_id && row.rule_id == finding.rule_id)
    && concerns finding row.entity_key row.entity_value

module _ (source : Source) where
  unfoldable pub is_suppressed : (tenant_id : String) → Finding → Action Bool
  is_suppressed tenant_id finding = do
    now ← utcnow source
    ask (λ db.
        any (suppresses tenant_id finding now) db.suppressions
        || any (excepts tenant_id finding) db.exceptions)

  unfoldable pub create_suppression :
      (tenant_id rule_id entity_key entity_value reason actor_id : String)
      → (expires_at : Option ℕ) → Action Tables.Suppression
  create_suppression tenant_id rule_id entity_key entity_value reason actor_id expires_at = do
    id ← new_id source "sup"
    created_at ← utcnow source
    let row : Tables.Suppression = record {
      id = id;
      tenant_id = tenant_id;
      rule_id = rule_id;
      entity_key = entity_key;
      entity_value = entity_value;
      reason = reason;
      created_by = actor_id;
      expires_at = expires_at;
      created_at = created_at;
    } in
        do write (λ db. record db { suppressions = db.suppressions ++ row ∷ [] }); flush; give row

  unfoldable pub create_exception :
      (tenant_id rule_id entity_key entity_value reason actor_id : String)
      → Action DetectionException
  create_exception tenant_id rule_id entity_key entity_value reason actor_id = do
    id ← new_id source "exc"
    created_at ← utcnow source
    let row : DetectionException = record {
      id = id;
      tenant_id = tenant_id;
      rule_id = rule_id;
      entity_key = entity_key;
      entity_value = entity_value;
      reason = reason;
      created_by = actor_id;
      created_at = created_at;
    } in
        do write (λ db. record db { exceptions = db.exceptions ++ row ∷ [] }); flush; give row
