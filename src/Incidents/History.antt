-- ===== src/Incidents/History.antt =====
-- The life of an incident: calls append to its records, and it stays the same incident.
use blue_team_os.Prelude.{
  ◌≡◌, refl, sym, ap, ◌∙◌, subst, String, Bool, true, false, List, [], ◌∷◌, ◌++◌, ◌==◌, inl, inr,
  Bool-cases, mem_text, strip, append-nil, append_assoc, if◌then◌else◌,
}
use blue_team_os.Errors.{Result, ok}
use blue_team_os.Store.Tables.{Db, IncidentRecord}
use blue_team_os.Store.Tables
use blue_team_os.Store.Action.{Action, Source, clashes, flush}
use blue_team_os.Store.Triple.{Returns}
use blue_team_os.Evidence.{evidence_with}
use blue_team_os.Incidents.{
  incident_statuses, save, timeline_event, set_status, assign, add_note, add_task, set_root_cause,
  set_lessons, link_evidence, link, bind, is_bound_elsewhere,
}

abbrev pub IsPrefix {ℓ} : {A : Type ℓ} → List A → List A → Type ℓ
IsPrefix {A} xs ys = (more : List A) × (ys ≡ xs ++ more)

IsPrefix-refl {ℓ} : {A : Type ℓ} (xs : List A) → IsPrefix xs xs
IsPrefix-refl xs = ([], sym (append-nil xs))

IsPrefix-trans {ℓ} :
    {A : Type ℓ} (xs ys zs : List A) → IsPrefix xs ys → IsPrefix ys zs → IsPrefix xs zs
IsPrefix-trans xs ys zs (more, e) (rest, f) =
    (more ++ rest, f ∙ ap (λ l. l ++ rest) e ∙ append_assoc xs more rest)

abbrev has_status : IncidentRecord → Bool
has_status incident = mem_text incident.status incident_statuses

-- The later row is the same incident; its timeline, notes, tasks and evidence begin with those of the
-- earlier one; and its status is one of the program's if the earlier one's was.
pub record Extends (earlier later : IncidentRecord) : Type 0 where
  pub same_id : later.id ≡ earlier.id
  pub same_tenant : later.tenant_id ≡ earlier.tenant_id
  pub same_fingerprint : later.fingerprint ≡ earlier.fingerprint
  pub same_alert : later.source_alert_id ≡ earlier.source_alert_id
  pub timeline : IsPrefix earlier.timeline later.timeline
  pub notes : IsPrefix earlier.notes later.notes
  pub tasks : IsPrefix earlier.tasks later.tasks
  pub evidence : IsPrefix earlier.evidence_ids later.evidence_ids
  pub status : has_status earlier ≡ true → has_status later ≡ true

Extends-refl : (a : IncidentRecord) → Extends a a
Extends-refl a = record {
  same_id = refl;
  same_tenant = refl;
  same_fingerprint = refl;
  same_alert = refl;
  timeline = IsPrefix-refl a.timeline;
  notes = IsPrefix-refl a.notes;
  tasks = IsPrefix-refl a.tasks;
  evidence = IsPrefix-refl a.evidence_ids;
  status = λ h. h;
}

Extends-trans : (a b c : IncidentRecord) → Extends a b → Extends b c → Extends a c
Extends-trans a b c h k = record {
  same_id = k.same_id ∙ h.same_id;
  same_tenant = k.same_tenant ∙ h.same_tenant;
  same_fingerprint = k.same_fingerprint ∙ h.same_fingerprint;
  same_alert = k.same_alert ∙ h.same_alert;
  timeline = IsPrefix-trans _ _ _ h.timeline k.timeline;
  notes = IsPrefix-trans _ _ _ h.notes k.notes;
  tasks = IsPrefix-trans _ _ _ h.tasks k.tasks;
  evidence = IsPrefix-trans _ _ _ h.evidence k.evidence;
  status = λ s. k.status (h.status s);
}

save-Extends :
    (incident row : IncidentRecord) (db : Db)
    → Extends incident row
    → Returns (λ saved later. Extends incident saved) (save row db)
unfolding save flush
save-Extends incident row db h = elim (Bool-cases (clashes db.findings db.added_findings)) [
  | inl clash ↦ rw clash tt
  | inr clear ↦ rw clear h
]

module _ (source : Source) (incident : IncidentRecord) where
  abbrev Keeps : Action IncidentRecord → Type 0
  Keeps call = (db : Db) → Returns (λ row later. Extends incident row) (call db)

  set_status-Extends :
      (status actor_id : String) → Keeps (set_status source incident status actor_id)
  unfolding set_status timeline_event
  set_status-Extends status actor_id db = elim (Bool-cases (mem_text status incident_statuses)) [
    | inl there ↦ rw there (
        save-Extends incident _ _ (record {
          same_id = refl;
          same_tenant = refl;
          same_fingerprint = refl;
          same_alert = refl;
          timeline = (_, refl);
          notes = IsPrefix-refl incident.notes;
          tasks = IsPrefix-refl incident.tasks;
          evidence = IsPrefix-refl incident.evidence_ids;
          status = λ h. there;
        }))
    | inr missing ↦ rw missing tt
  ]

  assign-Extends :
      (user_id email actor_id : String) → Keeps (assign source incident user_id email actor_id)
  unfolding assign timeline_event mem_text
  assign-Extends user_id email actor_id db = save-Extends incident _ _ (record {
    same_id = refl;
    same_tenant = refl;
    same_fingerprint = refl;
    same_alert = refl;
    timeline = (_, refl);
    notes = IsPrefix-refl incident.notes;
    tasks = IsPrefix-refl incident.tasks;
    evidence = IsPrefix-refl incident.evidence_ids;
    status = λ h. triaged (incident.status == "grouped") h;
  })
    where
      triaged :
          (grouped : Bool)
          → has_status incident ≡ true
          → mem_text (if grouped then "triaging" else incident.status) incident_statuses ≡ true
      triaged true h = refl
      triaged false h = h

  add_note-Extends : (body actor_id : String) → Keeps (add_note source incident body actor_id)
  unfolding add_note timeline_event
  add_note-Extends body actor_id db = elim (Bool-cases (strip body == "")) [
    | inl blank ↦ rw blank tt
    | inr there ↦ rw there (
        save-Extends incident _ _ (record {
          same_id = refl;
          same_tenant = refl;
          same_fingerprint = refl;
          same_alert = refl;
          timeline = (_, refl);
          notes = (_, refl);
          tasks = IsPrefix-refl incident.tasks;
          evidence = IsPrefix-refl incident.evidence_ids;
          status = λ h. h;
        }))
  ]

  add_task-Extends : (title actor_id : String) → Keeps (add_task source incident title actor_id)
  unfolding add_task timeline_event
  add_task-Extends title actor_id db = elim (Bool-cases (strip title == "")) [
    | inl blank ↦ rw blank tt
    | inr there ↦ rw there (
        save-Extends incident _ _ (record {
          same_id = refl;
          same_tenant = refl;
          same_fingerprint = refl;
          same_alert = refl;
          timeline = (_, refl);
          notes = IsPrefix-refl incident.notes;
          tasks = (_, refl);
          evidence = IsPrefix-refl incident.evidence_ids;
          status = λ h. h;
        }))
  ]

  set_root_cause-Extends :
      (body actor_id : String) → Keeps (set_root_cause source incident body actor_id)
  unfolding set_root_cause timeline_event
  set_root_cause-Extends body actor_id db = save-Extends incident _ _ (record {
    same_id = refl;
    same_tenant = refl;
    same_fingerprint = refl;
    same_alert = refl;
    timeline = (_, refl);
    notes = IsPrefix-refl incident.notes;
    tasks = IsPrefix-refl incident.tasks;
    evidence = IsPrefix-refl incident.evidence_ids;
    status = λ h. h;
  })

  set_lessons-Extends : (body actor_id : String) → Keeps (set_lessons source incident body actor_id)
  unfolding set_lessons timeline_event
  set_lessons-Extends body actor_id db = save-Extends incident _ _ (record {
    same_id = refl;
    same_tenant = refl;
    same_fingerprint = refl;
    same_alert = refl;
    timeline = (_, refl);
    notes = IsPrefix-refl incident.notes;
    tasks = IsPrefix-refl incident.tasks;
    evidence = IsPrefix-refl incident.evidence_ids;
    status = λ h. h;
  })

  bind-Extends :
      (evidence : Tables.Evidence) (evidence_id actor_id : String)
      → Keeps (bind source incident evidence evidence_id actor_id)
  unfolding bind timeline_event
  bind-Extends evidence evidence_id actor_id db = save-Extends incident _ _ (record {
    same_id = refl;
    same_tenant = refl;
    same_fingerprint = refl;
    same_alert = refl;
    timeline = (_, refl);
    notes = IsPrefix-refl incident.notes;
    tasks = IsPrefix-refl incident.tasks;
    evidence = added (mem_text evidence_id incident.evidence_ids);
    status = λ h. h;
  })
    where
      added :
          (there : Bool)
          → IsPrefix incident.evidence_ids
              (if there then incident.evidence_ids else incident.evidence_ids ++ evidence_id ∷ [])
      added true = IsPrefix-refl incident.evidence_ids
      added false = (evidence_id ∷ [], refl)

  link-Extends :
      (evidence : Tables.Evidence) (evidence_id actor_id : String)
      → Keeps (link source incident evidence evidence_id actor_id)
  unfolding link bind
  link-Extends evidence evidence_id actor_id db = elim (Bool-cases evidence.sealed) [
    | inl shut ↦ elim (Bool-cases (is_bound_elsewhere evidence incident)) [
      | inl elsewhere ↦ rw (shut, elsewhere) tt
      | inr free ↦ rw (shut, free) (bind-Extends evidence evidence_id actor_id db)
    ]
    | inr unsealed ↦ rw unsealed tt
  ]

  link_evidence-Extends :
      (evidence_id actor_id : String) → Keeps (link_evidence source incident evidence_id actor_id)
  unfolding link_evidence
  link_evidence-Extends evidence_id actor_id db =
      from_rows (evidence_with incident.tenant_id evidence_id db.evidence) refl
    where
      from_rows :
          (rows : List Tables.Evidence)
          → evidence_with incident.tenant_id evidence_id db.evidence ≡ rows
          → Returns
              (λ row later. Extends incident row)
              (link_evidence source incident evidence_id actor_id db)
      from_rows [] e = rw e tt
      from_rows (evidence ∷ []) e = rw e (link-Extends evidence evidence_id actor_id db)
      from_rows (evidence ∷ other ∷ rows) e = rw e tt

-- A call that returned has turned the first row into the second.
pub data Step (source : Source) (incident row : IncidentRecord) : Type 0 where
  status_set :
      (status actor_id : String) (db later : Db)
      → set_status source incident status actor_id db ≡ (ok row, later)
      → Step source incident row
  assigned :
      (user_id email actor_id : String) (db later : Db)
      → assign source incident user_id email actor_id db ≡ (ok row, later)
      → Step source incident row
  noted :
      (body actor_id : String) (db later : Db)
      → add_note source incident body actor_id db ≡ (ok row, later)
      → Step source incident row
  tasked :
      (title actor_id : String) (db later : Db)
      → add_task source incident title actor_id db ≡ (ok row, later)
      → Step source incident row
  explained :
      (body actor_id : String) (db later : Db)
      → set_root_cause source incident body actor_id db ≡ (ok row, later)
      → Step source incident row
  learned :
      (body actor_id : String) (db later : Db)
      → set_lessons source incident body actor_id db ≡ (ok row, later)
      → Step source incident row
  linked :
      (evidence_id actor_id : String) (db later : Db)
      → link_evidence source incident evidence_id actor_id db ≡ (ok row, later)
      → Step source incident row

-- Any number of calls, each on the row that the one before has left.
pub data Reach (source : Source) (first : IncidentRecord) : IncidentRecord → Type 0 where
  start : Reach source first first
  after :
      {mid last : IncidentRecord}
      → Reach source first mid
      → Step source mid last
      → Reach source first last

module _ (source : Source) where
  returned :
      (incident row : IncidentRecord) (result : Result IncidentRecord × Db) (later : Db)
      → Returns (λ saved _. Extends incident saved) result
      → result ≡ (ok row, later)
      → Extends incident row
  returned incident row result later h e = subst (Returns (λ saved _. Extends incident saved)) e h

  Step-Extends : (incident row : IncidentRecord) → Step source incident row → Extends incident row
  Step-Extends incident row (status_set status actor_id db later e) =
      returned incident row _ later (set_status-Extends source incident status actor_id db) e
  Step-Extends incident row (assigned user_id email actor_id db later e) =
      returned incident row _ later (assign-Extends source incident user_id email actor_id db) e
  Step-Extends incident row (noted body actor_id db later e) =
      returned incident row _ later (add_note-Extends source incident body actor_id db) e
  Step-Extends incident row (tasked title actor_id db later e) =
      returned incident row _ later (add_task-Extends source incident title actor_id db) e
  Step-Extends incident row (explained body actor_id db later e) =
      returned incident row _ later (set_root_cause-Extends source incident body actor_id db) e
  Step-Extends incident row (learned body actor_id db later e) =
      returned incident row _ later (set_lessons-Extends source incident body actor_id db) e
  Step-Extends incident row (linked evidence_id actor_id db later e) =
      returned incident row _ later (link_evidence-Extends source incident evidence_id actor_id db)
        e

  -- Whatever calls are made on an incident, as long as they return: it keeps its identifier, tenant,
  -- fingerprint and alert; its timeline, notes, tasks and evidence only grow at the end; and its status
  -- stays one of the program's if it was one.
  pub Reach-Extends : (first last : IncidentRecord) → Reach source first last → Extends first last
  Reach-Extends first last start = Extends-refl first
  Reach-Extends first last (after {mid} before step) =
      Extends-trans first mid last (Reach-Extends first mid before) (Step-Extends mid last step)
