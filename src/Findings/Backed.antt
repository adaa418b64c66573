-- ===== src/Findings/Backed.antt =====
-- Each stored finding rests on sealed evidence of its tenant.
use mathlib.Core.List.{Memᴰ}
use mathlib.Core.List.Memᴰ
use blue_team_os.Prelude.{
  ℕ, ◌+◌, ◌≡◌, refl, sym, ap, ◌∙◌, subst, String, Bool, true, false, ◌&&◌, Option, none, some, List,
  [], ◌∷◌, ◌++◌, ◌==◌, inl, inr, All, All-map, All-append, All-of_member, filter-first, and-left,
  and-right, Bool-cases, append-nil, append_assoc, arith, eq_iff,
}
use blue_team_os.Errors.{Result, ok, err}
use blue_team_os.Event.{CanonicalEvent}
use blue_team_os.Detection.Context.{Finding, DetectionContext, DetectionRegistry, evaluate}
use blue_team_os.Store.Tables.{Db, FindingRecord, SecurityEvent}
use blue_team_os.Store.Tables
use blue_team_os.Store.Action.{◌>>=◌, ◌>>◌, give, continue, Source, clashes, flush, one_or_none}
use blue_team_os.Store.Triple.{Returns, Triple, Returns-continue}
use blue_team_os.Evidence.{source_of, evidence_from, register_event_evidence}
use blue_team_os.Evidence.Acquired.{known, fresh, failed, register-cases, with_evidence, new_row}
use blue_team_os.Suppression.{is_suppressed}
use blue_team_os.Findings.{
  Codec, register_all, create, unless_stored, unless_suppressed, consider, consider_all,
  evaluate_and_store_findings, stored_as,
}

-- Sealed evidence of the tenant with this identifier, which was acquired from the event.
abbrev pub IsEvidence : List Tables.Evidence → (tenant_id event_id evidence_id : String) → Type 0
IsEvidence rows tenant_id event_id evidence_id =
    (row : Tables.Evidence) × Memᴰ row rows
    × (row.id ≡ evidence_id)
    × (row.tenant_id ≡ tenant_id)
    × (row.source ≡ source_of event_id)
    × (row.sealed ≡ true)

-- One evidence for each event, in their order.
abbrev pub Backed :
    List Tables.Evidence → (tenant_id : String) → (event_ids evidence_ids : List String) → Type 0
Backed rows tenant_id [] [] = Unit
Backed rows tenant_id (event_id ∷ event_ids) (evidence_id ∷ evidence_ids) =
    IsEvidence rows tenant_id event_id evidence_id × Backed rows tenant_id event_ids evidence_ids
Backed rows tenant_id _ _ = ⊥

abbrev pub IsBacked : List Tables.Evidence → FindingRecord → Type 0
IsBacked rows f = Backed rows f.tenant_id f.event_ids f.evidence_ids

-- All evidence is sealed, and all findings, stored or added, are backed.
pub record IsSound (db : Db) : Type 0 where
  pub sealed : All (λ (row : Tables.Evidence). row.sealed ≡ true) db.evidence
  pub stored : All (IsBacked db.evidence) db.findings
  pub added : All (IsBacked db.evidence) db.added_findings

abbrev Grows : Db → Db → Type 0
Grows db later = (more : List Tables.Evidence) × (later.evidence ≡ db.evidence ++ more)

Grows-refl : (db : Db) → Grows db db
Grows-refl db = ([], sym (append-nil db.evidence))

Grows-trans : (a b c : Db) → Grows a b → Grows b c → Grows a c
Grows-trans a b c (xs, e) (ys, f) =
    (xs ++ ys, f ∙ ap (λ l. l ++ ys) e ∙ append_assoc a.evidence xs ys)

IsEvidence-Grows :
    (db later : Db) (tenant_id event_id evidence_id : String)
    → Grows db later
    → IsEvidence db.evidence tenant_id event_id evidence_id
    → IsEvidence later.evidence tenant_id event_id evidence_id
IsEvidence-Grows db later tenant_id event_id evidence_id (more, e)
      (row, there, named, owned, made, shut) =
    (row, subst (λ l. Memᴰ row l) (sym e) (Memᴰ.append_left more there), named, owned, made, shut)

Backed-Grows :
    (db later : Db) (tenant_id : String) (event_ids evidence_ids : List String)
    → Grows db later
    → Backed db.evidence tenant_id event_ids evidence_ids
    → Backed later.evidence tenant_id event_ids evidence_ids
Backed-Grows db later tenant_id [] [] g h = tt
Backed-Grows db later tenant_id (event_id ∷ event_ids) (evidence_id ∷ evidence_ids) g h = (
  IsEvidence-Grows db later tenant_id event_id evidence_id g h.0,
  Backed-Grows db later tenant_id event_ids evidence_ids g h.1,
)
Backed-Grows db later tenant_id [] (i ∷ is) g h = absurd h
Backed-Grows db later tenant_id (e ∷ es) [] g h = absurd h

All-Backed-Grows :
    (db later : Db) (rows : List FindingRecord)
    → Grows db later
    → All (IsBacked db.evidence) rows
    → All (IsBacked later.evidence) rows
All-Backed-Grows db later rows g h =
    All-map _ (λ f b. Backed-Grows db later f.tenant_id f.event_ids f.evidence_ids g b) rows h

module _ (source : Source) (tenant_id event_id collector : String) where
  with_evidence-Grows :
      (event : SecurityEvent) (db : Db)
      → Grows db (with_evidence source tenant_id event_id collector event db)
  with_evidence-Grows event db = (new_row source tenant_id event_id collector event db ∷ [], refl)

  with_evidence-IsSound :
      (event : SecurityEvent) (db : Db)
      → IsSound db
      → IsSound (with_evidence source tenant_id event_id collector event db)
  with_evidence-IsSound event db h =
      let g = with_evidence-Grows event db in
      let later = with_evidence source tenant_id event_id collector event db in
      record {
        sealed =
            All-append _ db.evidence (new_row source tenant_id event_id collector event db ∷ [])
              h.sealed (refl, tt);
        stored =
            All-append _ db.findings db.added_findings
              (All-Backed-Grows db later db.findings g h.stored)
              (All-Backed-Grows db later db.added_findings g h.added);
        added = tt;
      }

  new-IsEvidence :
      (event : SecurityEvent) (db : Db)
      → IsEvidence
          (with_evidence source tenant_id event_id collector event db).evidence
          tenant_id
          event_id
          (source.new_id "evi" db.drawn)
  new-IsEvidence event db = (
    new_row source tenant_id event_id collector event db,
    Memᴰ.append_right db.evidence (Memᴰ.head refl),
    refl,
    refl,
    refl,
    refl,
  )

  known-IsEvidence :
      (row : Tables.Evidence) (db : Db)
      → IsSound db
      → evidence_from tenant_id (source_of event_id) db.evidence ≡ row ∷ []
      → IsEvidence db.evidence tenant_id event_id row.id
  known-IsEvidence row db h e =
      let (there, passes) =
        filter-first
          (λ (r : Tables.Evidence). r.tenant_id == tenant_id && r.source == source_of event_id)
          db.evidence e in
      (
        row,
        there,
        refl,
        same _ _ (and-left _ _ passes),
        same _ _ (and-right _ _ passes),
        All-of_member _ db.evidence h.sealed there,
      )
    where
      same : (a b : String) → (a == b) ≡ true → a ≡ b
      same a b e = ground (arith, eq_iff a b)

  pub register_event_evidence-IsSound :
      (db : Db)
      → IsSound db
      → Returns
          (λ id later.
            IsSound later × Grows db later × IsEvidence later.evidence tenant_id event_id id)
          (register_event_evidence source tenant_id event_id collector db)
  register_event_evidence-IsSound db h =
      elim (register-cases source tenant_id event_id collector db) [
        | known row e r ↦ rw r (h, Grows-refl db, known-IsEvidence row db h e)
        | fresh event none_yet there clear r ↦ rw r (
          with_evidence-IsSound event db h,
          with_evidence-Grows event db,
          new-IsEvidence event db,
        )
        | failed exc later r ↦ rw r tt
      ]

flush-IsSound : Triple IsSound flush (λ _ later. IsSound later)
unfolding flush
flush-IsSound db h = elim (Bool-cases (clashes db.findings db.added_findings)) [
  | inl clash ↦ rw clash tt
  | inr clear ↦ rw clear (record {
    sealed = h.sealed;
    stored = All-append _ db.findings db.added_findings h.stored h.added;
    added = tt;
  })
]

module _ (source : Source) (codec : Codec) (registry : DetectionRegistry)
    (tenant_id actor_id : String) where
  register_all-IsSound :
      (event_ids : List String) (db : Db)
      → IsSound db
      → Returns
          (λ evidence_ids later.
            IsSound later × Grows db later × Backed later.evidence tenant_id event_ids evidence_ids)
          (register_all source codec registry tenant_id actor_id event_ids db)
  unfolding register_all
  register_all-IsSound [] db h = (h, Grows-refl db, tt)
  register_all-IsSound (event_id ∷ event_ids) db h =
      Returns-continue _ _ _ (register_event_evidence source tenant_id event_id actor_id db)
        (register_event_evidence-IsSound source tenant_id event_id actor_id db h)
        (λ evidence_id mid (sound, grown, made).
          Returns-continue _ _ _
            (register_all source codec registry tenant_id actor_id event_ids mid)
            (register_all-IsSound event_ids mid sound)
            (λ evidence_ids later (sound', grown', rest). (
              sound',
              Grows-trans db mid later grown grown',
              (IsEvidence-Grows mid later tenant_id event_id evidence_id grown' made, rest),
            )))

  create-IsSound :
      (finding : Finding)
      → Triple IsSound
          (create source codec registry tenant_id actor_id finding)
          (λ _ later. IsSound later)
  unfolding create
  create-IsSound finding db h =
      Returns-continue _ _ _
        (register_all source codec registry tenant_id actor_id finding.event_ids db)
        (register_all-IsSound finding.event_ids db h)
        (λ evidence_ids later (sound, grown, backed). record {
          sealed = sound.sealed;
          stored = sound.stored;
          added = All-append _ later.added_findings _ sound.added (backed, tt);
        })

  unless_stored-IsSound :
      (finding : Finding) (existing : Option FindingRecord)
      → Triple IsSound
          (unless_stored source codec registry tenant_id actor_id finding existing)
          (λ _ later. IsSound later)
  unfolding unless_stored
  unless_stored-IsSound finding none db h = create-IsSound finding db h
  unless_stored-IsSound finding (some row) db h = h

  one_or_none-IsSound :
      (rows : List FindingRecord) → Triple IsSound (one_or_none rows) (λ _ later. IsSound later)
  one_or_none-IsSound [] db h = h
  one_or_none-IsSound (row ∷ []) db h = h
  one_or_none-IsSound (row ∷ other ∷ rows) db h = tt

  unless_suppressed-IsSound :
      (finding : Finding) (suppressed : Bool)
      → Triple IsSound
          (unless_suppressed source codec registry tenant_id actor_id finding suppressed)
          (λ _ later. IsSound later)
  unfolding unless_suppressed
  unless_suppressed-IsSound finding true db h = h
  unless_suppressed-IsSound finding false db h =
      Returns-continue _ _ _
        (one_or_none
          (stored_as source codec registry tenant_id actor_id finding.fingerprint db.findings) db)
        (one_or_none-IsSound
          (stored_as source codec registry tenant_id actor_id finding.fingerprint db.findings) db h)
        (unless_stored-IsSound finding)

  consider-IsSound :
      (finding : Finding)
      → Triple IsSound
          (consider source codec registry tenant_id actor_id finding)
          (λ _ later. IsSound later)
  unfolding consider is_suppressed
  consider-IsSound finding db h =
      unless_suppressed-IsSound finding _ (record db { drawn = db.drawn + 1 })
        (record { sealed = h.sealed; stored = h.stored; added = h.added })

  consider_all-IsSound :
      (findings : List Finding) (created : ℕ) (context : DetectionContext)
      → Triple IsSound
          (consider_all source codec registry tenant_id actor_id findings created context)
          (λ _ later. IsSound later)
  unfolding consider_all
  consider_all-IsSound [] created context db h = h
  consider_all-IsSound (finding ∷ findings) created context db h =
      Returns-continue _ _ _ (consider source codec registry tenant_id actor_id finding db)
        (consider-IsSound finding db h) (λ new. consider_all-IsSound findings _ _)

  evaluated-IsSound :
      (context : DetectionContext) (result : Result (List Finding)) (db : Db)
      → IsSound db
      → Returns
          (λ _ later. IsSound later)
          (continue
            (λ findings.
              consider_all source codec registry tenant_id actor_id findings 0 context
              >>= λ created. flush >> give created)
            (result, db))
  evaluated-IsSound context (err exc) db h = tt
  evaluated-IsSound context (ok findings) db h =
      Returns-continue _ _ _
        (consider_all source codec registry tenant_id actor_id findings 0 context db)
        (consider_all-IsSound findings 0 context db h)
        (λ created mid sound.
          Returns-continue _ _ _ (flush mid) (flush-IsSound mid sound) (λ _ later done. done))

  -- Whenever it returns, storing the findings of an event keeps all evidence sealed, and each finding,
  -- old or new, backed: it has one evidence for each of its events, in their order, which is evidence
  -- of the finding's tenant and was acquired from that event.
  pub evaluate_and_store_findings-IsSound :
      (event : CanonicalEvent) (context : DetectionContext)
      → Triple IsSound
          (evaluate_and_store_findings source codec registry tenant_id actor_id event context)
          (λ _ later. IsSound later)
  unfolding evaluate_and_store_findings
  evaluate_and_store_findings-IsSound event context db h =
      evaluated-IsSound context (evaluate registry event context) db h
