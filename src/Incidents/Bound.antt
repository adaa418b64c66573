-- ===== src/Incidents/Bound.antt =====
-- Evidence that is linked to an incident is bound to it.
use blue_team_os.Prelude.{
  ◌≡◌, refl, sym, ap, ◌∙◌, subst, String, Bool, true, false, ◌&&◌, not, [], ◌∷◌, ◌==◌, inl, inr,
  Bool-cases, update, filter-update, map, arith,
}
use blue_team_os.Errors.{Result, ok, err}
use blue_team_os.Store.Tables.{Db, IncidentRecord}
use blue_team_os.Store.Tables
use blue_team_os.Store.Action.{Source, clashes, flush}
use blue_team_os.Store.Triple.{
  Returns, Returns-throw_if, Returns-found, throw_if-passes, throw_if-raises,
}
use blue_team_os.Evidence.{evidence_with}
use blue_team_os.Incidents.{
  save, timeline_event, link_evidence, link, bind, linked, is_bound_elsewhere, bound_error,
}

save_evidence :
    (row : IncidentRecord) (db : Db)
    → Returns (λ _ later. later.evidence ≡ db.evidence) (save row db)
unfolding save flush
save_evidence row db = elim (Bool-cases (clashes db.findings db.added_findings)) [
  | inl clash ↦ rw clash tt
  | inr clear ↦ rw clear refl
]

module _ (source : Source) (incident : IncidentRecord) (evidence_id actor_id : String) where
  abbrev is_it : Tables.Evidence → Bool
  is_it row = row.tenant_id == incident.tenant_id && row.id == evidence_id

  abbrev pub bound_at : Db → Tables.Evidence → Tables.Evidence
  bound_at db = linked source incident actor_id (source.isoformat (source.utcnow db.drawn))

  bind_evidence :
      (evidence : Tables.Evidence) (db : Db)
      → Returns
          (λ _ later. later.evidence ≡ update is_it (bound_at db) db.evidence)
          (bind source incident evidence evidence_id actor_id db)
  unfolding bind timeline_event
  bind_evidence evidence db = save_evidence _ _

  -- What linking has found, and what it leaves.
  abbrev pub Binds : Db → IncidentRecord → Db → Type 0
  Binds db row later =
      (evidence : Tables.Evidence) × (evidence_with incident.tenant_id evidence_id db.evidence
        ≡ evidence ∷ [])
      × (evidence.sealed ≡ true)
      × (is_bound_elsewhere evidence incident ≡ false)
      × (evidence_with incident.tenant_id evidence_id later.evidence ≡ bound_at db evidence ∷ [])

  rebound :
      (evidence : Tables.Evidence) (db later : Db)
      → evidence_with incident.tenant_id evidence_id db.evidence ≡ evidence ∷ []
      → later.evidence ≡ update is_it (bound_at db) db.evidence
      → evidence_with incident.tenant_id evidence_id later.evidence ≡ bound_at db evidence ∷ []
  rebound evidence db later e g =
      ap (evidence_with incident.tenant_id evidence_id) g
      ∙ filter-update is_it (bound_at db) (λ row. refl) db.evidence
      ∙ ap (map (bound_at db)) e

  weaken :
      (result : Result IncidentRecord × Db) (P Q : IncidentRecord → Db → Type 0)
      → ((row : IncidentRecord) (later : Db) → P row later → Q row later)
      → Returns P result
      → Returns Q result
  weaken (ok row, later) P Q f h = f row later h
  weaken (err exc, later) P Q f h = tt

  link-Binds :
      (evidence : Tables.Evidence) (db : Db)
      → evidence_with incident.tenant_id evidence_id db.evidence ≡ evidence ∷ []
      → Returns (Binds db) (link source incident evidence evidence_id actor_id db)
  unfolding link
  link-Binds evidence db e = Returns-throw_if (Binds db) (not evidence.sealed) _ _ db (λ shut.
      Returns-throw_if (Binds db) (is_bound_elsewhere evidence incident) _ _ db (λ free.
        weaken (bind source incident evidence evidence_id actor_id db) _ (Binds db)
          (λ row later g.
            (evidence, e, is_true evidence.sealed shut, free, rebound evidence db later e g))
          (bind_evidence evidence db)))
    where
      is_true : (b : Bool) → not b ≡ false → b ≡ true
      is_true b h = ground arith

  pub link_evidence-Binds :
      (db : Db) → Returns (Binds db) (link_evidence source incident evidence_id actor_id db)
  unfolding link_evidence
  link_evidence-Binds db =
      Returns-found (Binds db) (evidence_with incident.tenant_id evidence_id db.evidence) _ _ db
        (λ evidence e. link-Binds evidence db e)

module _ (source : Source) (incident other : IncidentRecord)
    (evidence_id actor_id rival_id : String) where
  refused :
      (evidence : Tables.Evidence) (db : Db)
      → evidence_with other.tenant_id evidence_id db.evidence ≡ evidence ∷ []
      → evidence.sealed ≡ true
      → is_bound_elsewhere evidence other ≡ true
      → link_evidence source other evidence_id rival_id db ≡ (err bound_error, db)
  unfolding link_evidence link
  refused evidence db e shut elsewhere = rw e (
      throw_if-passes (not evidence.sealed) _ _ db (ap not shut)
      ∙ throw_if-raises (is_bound_elsewhere evidence other) _ _ db elsewhere)

  -- Once an incident has evidence, another incident of the tenant is refused it.
  pub link_evidence-other :
      (row : IncidentRecord) (db later : Db)
      → other.tenant_id ≡ incident.tenant_id
      → (incident.id == "") ≡ false
      → (incident.id == other.id) ≡ false
      → link_evidence source incident evidence_id actor_id db ≡ (ok row, later)
      → link_evidence source other evidence_id rival_id later ≡ (err bound_error, later)
  link_evidence-other row db later tenant named distinct h =
      let (evidence, e, shut, free, now) =
        subst (Returns (Binds source incident evidence_id actor_id db)) h
          (link_evidence-Binds source incident evidence_id actor_id db) in
      refused (bound_at source incident evidence_id actor_id db evidence) later
        (subst
          (λ t.
            evidence_with t evidence_id later.evidence
            ≡ bound_at source incident evidence_id actor_id db evidence ∷ [])
          (sym tenant) now)
        shut (rw (named, distinct) refl)
