-- ===== src/Findings/Skipped.antt =====
-- What keeps a finding from being stored: a suppression, or a row with its fingerprint.
use blue_team_os.Prelude.{
  ℕ, ◌+◌, ◌≡◌, refl, ◌∙◌, subst, String, Bool, true, false, ◌||◌, Option, [], ◌∷◌, ◌++◌, inl, inr,
  Bool-cases, any, any-append, arith, eq_refl,
}
use blue_team_os.Errors.{Error, ok, err}
use blue_team_os.Detection.Context.{Finding, DetectionRegistry}
use blue_team_os.Store.Tables.{Db}
use blue_team_os.Store.Tables
use blue_team_os.Store.Action.{Action, Source, clashes, flush}
use blue_team_os.Store.Triple.{returns_once, not_both}
use blue_team_os.Suppression.{concerns, has_expired, suppresses, is_suppressed, create_suppression}
use blue_team_os.Findings.{Codec, unless_suppressed, consider}

or_true : (b : Bool) → (b || (true || false)) ≡ true
or_true b = ground arith

module _ (source : Source) (tenant_id rule_id entity_key entity_value reason actor_id : String)
    (expires_at : Option ℕ) where
  abbrev new_suppression : Db → Tables.Suppression
  new_suppression db = record {
    id = source.new_id "sup" db.drawn;
    tenant_id = tenant_id;
    rule_id = rule_id;
    entity_key = entity_key;
    entity_value = entity_value;
    reason = reason;
    created_by = actor_id;
    expires_at = expires_at;
    created_at = source.utcnow (db.drawn + 1);
  }

  abbrev call : Action Tables.Suppression
  call =
      create_suppression source tenant_id rule_id entity_key entity_value reason actor_id expires_at

  abbrev suppressed_db : Db → Db
  suppressed_db db = record db {
    suppressions = db.suppressions ++ new_suppression db ∷ [];
    findings = db.findings ++ db.added_findings;
    alerts = db.alerts ++ db.added_alerts;
    added_findings = [];
    added_alerts = [];
    drawn = db.drawn + 1 + 1;
  }

  creates :
      (db : Db)
      → clashes db.findings db.added_findings ≡ false
      → call db ≡ (ok (new_suppression db), suppressed_db db)
  unfolding create_suppression flush
  creates db e = rw e refl

  raises :
      (db : Db)
      → clashes db.findings db.added_findings ≡ true
      → (exc : Error) × (later : Db) × (call db ≡ (err exc, later))
  unfolding create_suppression flush
  raises db e = rw e (_, _, refl)

  module _ (codec : Codec) (registry : DetectionRegistry) (finding : Finding) where
    any-suppresses :
        (db : Db) (now : ℕ)
        → finding.rule_id ≡ rule_id
        → concerns finding entity_key entity_value ≡ true
        → has_expired now expires_at ≡ false
        → any (suppresses tenant_id finding now) (suppressed_db db).suppressions ≡ true
    any-suppresses db now rule entity alive =
        any-append (suppresses tenant_id finding now) db.suppressions (new_suppression db ∷ [])
        ∙ rw (eq_refl tenant_id, rule, eq_refl rule_id, alive, entity) (or_true _)

    skipped :
        (db : Db)
        → any (suppresses tenant_id finding (source.utcnow db.drawn)) db.suppressions ≡ true
        → consider source codec registry tenant_id actor_id finding db
          ≡ (ok false, record db { drawn = db.drawn + 1 })
    unfolding consider is_suppressed unless_suppressed
    skipped db e = rw e refl

    -- A finding is not stored, and nothing is added, once a suppression of its rule has been created in
    -- its tenant for one of its attributes, as long as the suppression has not expired.
    pub consider-create_suppression :
        (db : Db) (row : Tables.Suppression) (later : Db)
        → create_suppression source tenant_id rule_id entity_key entity_value reason actor_id
            expires_at db
          ≡ (ok row, later)
        → finding.rule_id ≡ rule_id
        → concerns finding entity_key entity_value ≡ true
        → has_expired (source.utcnow later.drawn) expires_at ≡ false
        → consider source codec registry tenant_id actor_id finding later
          ≡ (ok false, record later { drawn = later.drawn + 1 })
    consider-create_suppression db row later h rule entity alive =
        elim (Bool-cases (clashes db.findings db.added_findings)) [
          | inl clash ↦ let (exc, other, r) = raises db clash in absurd (not_both _ h r)
          | inr clear ↦
              let (same, here) = returns_once _ (creates db clear) h in
              subst
                (λ d.
                  has_expired (source.utcnow d.drawn) expires_at ≡ false
                  → consider source codec registry tenant_id actor_id finding d
                    ≡ (ok false, record d { drawn = d.drawn + 1 }))
                here (λ fresh. skipped (suppressed_db db) (any-suppresses db _ rule entity fresh))
                alive
        ]
