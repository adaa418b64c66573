-- ===== src/Detection/Grounds.antt =====
-- What a finding of any rule of the catalogue rests on.
use mathlib.Core.List.{Memᴰ}
use blue_team_os.Prelude.{
  All-Mem, ℕ, ◌≡◌, refl, String, Bool, Option, true, false, List, [], ◌∷◌, map, filter, mem_text,
  inl, inr, some, All, All-map, Bool-cases, eq_refl, if◌then◌else◌,
}
use blue_team_os.Errors.{Result, ok, ◌>>=◌, OnOk, Returned, OnOk-bind, OnOk-then, OnOk-elim}
use blue_team_os.Event.{CanonicalEvent}
use blue_team_os.Detection.Context.{
  Finding, Filters, DetectionContext, RuleMeta, query, events_in_window, already_open, differ,
}
use blue_team_os.Detection.Rules.{
  Clock, identity_attributes, shared_attributes, finding_of, user_attribute, identity_finding,
  shared_finding, identity_report, shared_report,
}
use blue_team_os.Detection.Accounts.{country, is_dormant}
use blue_team_os.Detection.Window.{matches-tenant, query-All, query-Returned, same_text}

-- An event of the trigger's tenant: the trigger, or one of the window.
abbrev pub IsKnown : DetectionContext → (trigger e : CanonicalEvent) → Type 0
IsKnown context trigger e = (e.tenant_id ≡ trigger.tenant_id) × Memᴰ e (trigger ∷ context.window)

abbrev pub IsGrounded : DetectionContext → (trigger : CanonicalEvent) → RuleMeta → Finding → Type 0
IsGrounded context trigger meta finding =
    (finding.tenant_id ≡ trigger.tenant_id)
    × (finding.rule_id ≡ meta.rule_id)
    × (already_open context finding.fingerprint ≡ false)
    × (mem_text trigger.id finding.event_ids ≡ true)
    × All (λ (id : String). (e : CanonicalEvent) × (e.id ≡ id) × IsKnown context trigger e)
        finding.event_ids

-- The trigger's user, if there is one, has a name; no event has a country that cannot be hashed; the
-- test of the trigger's dormant account returns; and all times have a zone or none has.
abbrev pub IsReadable : Clock → DetectionContext → (trigger : CanonicalEvent) → Type 0
IsReadable clock context trigger =
    Returned (user_attribute trigger.user)
    × ((e : CanonicalEvent) → IsKnown context trigger e → Returned (country clock e))
    × Returned (is_dormant clock trigger)
    × ((e : CanonicalEvent)
        → IsKnown context trigger e
        → differ e.is_naive trigger.is_naive ≡ false)

-- What a rule returns is grounded; and it returns where it can read the events.
pub record Grounded (clock : Clock) (context : DetectionContext) (trigger : CanonicalEvent)
    (meta : RuleMeta) (result : Result (List Finding)) : Type 0 where
  pub findings : OnOk (All (IsGrounded context trigger meta)) result
  pub returns : IsReadable clock context trigger → Returned result

module _ (context : DetectionContext) (trigger : CanonicalEvent) where
  abbrev pub Known : List CanonicalEvent → Type 0
  Known = All (IsKnown context trigger)

  pub trigger-IsKnown : IsKnown context trigger trigger
  trigger-IsKnown = (refl, Memᴰ.head refl)

  pub filter-Known :
      (p : CanonicalEvent → Bool) (xs : List CanonicalEvent) → Known xs → Known (filter p xs)
  filter-Known p [] h = tt
  filter-Known p (x ∷ xs) h = elim (Bool-cases (p x)) [
    | inl e ↦ rw e (h.0, filter-Known p xs h.1)
    | inr e ↦ rw e (filter-Known p xs h.1)
  ]

  pub query-Known :
      (since until : ℕ) (f : Filters)
      → OnOk Known (query context.window trigger.tenant_id trigger.is_naive since (some until) f)
  query-Known since until f =
      query-All (λ e. Memᴰ e (trigger ∷ context.window)) (IsKnown context trigger) context.window
        trigger.tenant_id trigger.is_naive since until f
        (λ e there met. (matches-tenant trigger.tenant_id since until f e met, there))
        (All-Mem (trigger ∷ context.window)).1

  ids-IsKnown :
      (xs : List CanonicalEvent)
      → Known xs
      → All
          (λ (id : String). (e : CanonicalEvent) × (e.id ≡ id) × IsKnown context trigger e)
          (map (λ (e : CanonicalEvent). e.id) xs)
  ids-IsKnown [] h = tt
  ids-IsKnown (x ∷ xs) h = ((x, refl, h.0), ids-IsKnown xs h.1)

  module _ (clock : Clock) (meta : RuleMeta) (related : List CanonicalEvent)
      (fingerprint explanation : String) (known : Known related) where
    finding_of-IsGrounded :
        (attributes : List (String × String))
        → already_open context fingerprint ≡ false
        → IsGrounded context trigger meta
            (finding_of clock meta trigger related fingerprint explanation attributes)
    unfolding mem_text
    finding_of-IsGrounded attributes fresh =
        elim (Bool-cases (mem_text trigger.id (map (λ (e : CanonicalEvent). e.id) related))) [
          | inl there ↦ (refl, refl, fresh, rw there there, rw there (ids-IsKnown related known))
          | inr new ↦ (
            refl,
            refl,
            fresh,
            rw new head_known,
            rw new ((trigger, refl, trigger-IsKnown), ids-IsKnown related known),
          )
        ]
      where
        head_known :
            mem_text trigger.id (trigger.id ∷ map (λ (e : CanonicalEvent). e.id) related) ≡ true
        head_known = rw eq_refl refl

    shared_report-Grounded :
        OnOk
          (All (IsGrounded context trigger meta))
          (shared_report clock meta trigger related fingerprint explanation context)
    unfolding shared_report shared_finding
    shared_report-Grounded = elim (Bool-cases (already_open context fingerprint)) [
      | inl known ↦ rw known tt
      | inr fresh ↦ rw fresh (finding_of-IsGrounded (shared_attributes trigger) fresh, tt)
    ]

    identity_finding-IsGrounded :
        already_open context fingerprint ≡ false
        → OnOk
            (IsGrounded context trigger meta)
            (identity_finding clock meta trigger related fingerprint explanation)
    unfolding identity_finding
    identity_finding-IsGrounded fresh =
        OnOk-bind _ (user_attribute trigger.user) _
          (λ user e. finding_of-IsGrounded (identity_attributes trigger user) fresh)

    identity_report-Grounded :
        OnOk
          (All (IsGrounded context trigger meta))
          (identity_report clock meta trigger related fingerprint explanation context)
    unfolding identity_report
    identity_report-Grounded = elim (Bool-cases (already_open context fingerprint)) [
      | inl known ↦ rw known tt
      | inr fresh ↦ rw fresh (
          OnOk-then (IsGrounded context trigger meta) _ _ (λ finding. ok (finding ∷ []))
            (identity_finding-IsGrounded fresh) (λ finding h. (h, tt)))
    ]

    pub identity_report-Returned :
        Returned (user_attribute trigger.user)
        → Returned (identity_report clock meta trigger related fingerprint explanation context)
    unfolding identity_report identity_finding
    identity_report-Returned (user, e) = elim (Bool-cases (already_open context fingerprint)) [
      | inl known ↦ rw known ([], refl)
      | inr fresh ↦
          rw (fresh, e)
            (
              finding_of clock meta trigger related fingerprint explanation
                    (identity_attributes trigger user)
                  ∷ [],
              refl,
            )
    ]

    pub shared_report-Returned :
        Returned (shared_report clock meta trigger related fingerprint explanation context)
    unfolding shared_report
    shared_report-Returned = elim (Bool-cases (already_open context fingerprint)) [
      | inl known ↦ rw known ([], refl)
      | inr fresh ↦
          rw fresh (shared_finding clock meta trigger related fingerprint explanation ∷ [], refl)
    ]

module _ {clock : Clock} {context : DetectionContext} {trigger : CanonicalEvent}
    {meta : RuleMeta} where
  pub nothing : Grounded clock context trigger meta (ok [])
  nothing = record { findings = tt; returns = λ h. ([], refl) }

  -- Behind a guard of a rule.
  pub guarded :
      (guard : Bool) {rest : Result (List Finding)}
      → Grounded clock context trigger meta rest
      → Grounded clock context trigger meta (if guard then ok [] else rest)
  guarded true h = nothing
  guarded false h = h

  pub guarded_thrice :
      (a b c : Bool) {rest : Result (List Finding)}
      → Grounded clock context trigger meta rest
      → Grounded clock context trigger meta
          (if a then ok [] else if b then ok [] else if c then ok [] else rest)
  guarded_thrice a b c h = guarded a (guarded b (guarded c h))

  -- Behind the country of an event.
  pub located :
      (e : CanonicalEvent) (rest : Option String → Result (List Finding))
      → IsKnown context trigger e
      → ((found : Option String) → Grounded clock context trigger meta (rest found))
      → Grounded clock context trigger meta (country clock e >>= rest)
  located e rest known h = record {
    findings = OnOk-bind _ (country clock e) rest (λ found _. (h found).findings);
    returns = λ readable.
        let (found, there) = readable.1 e known in rw there ((h found).returns readable);
  }

  -- Behind a query of the window.
  pub queried :
      (since until : ℕ) (f : Filters) (rest : List CanonicalEvent → Result (List Finding))
      → ((seen : List CanonicalEvent)
          → Known context trigger seen
          → Grounded clock context trigger meta (rest seen))
      → Grounded clock context trigger meta
          (query context.window trigger.tenant_id trigger.is_naive since (some until) f >>= rest)
  queried since until f rest h = record {
    findings =
        OnOk-then (Known context trigger) _ _ rest (query-Known context trigger since until f)
          (λ seen known. (h seen known).findings);
    returns = λ readable.
        let (seen, e) =
          query-Returned context.window trigger.tenant_id trigger.is_naive since (some until) f (
            All-map _ (λ other there own. readable.3 other (same_text _ _ own, Memᴰ.tail there))
              context.window (All-Mem context.window)) in
        let known =
          OnOk-elim (Known context trigger) _ (query-Known context trigger since until f) e in
        rw e ((h seen known).returns readable);
  }

  pub windowed :
      (seconds : ℕ) (f : Filters) (rest : List CanonicalEvent → Result (List Finding))
      → ((seen : List CanonicalEvent)
          → Known context trigger seen
          → Grounded clock context trigger meta (rest seen))
      → Grounded clock context trigger meta (events_in_window context trigger seconds f >>= rest)
  unfolding events_in_window
  windowed seconds f rest h = queried _ _ f rest h

  -- Behind the test of a dormant account.
  pub behind_dormant :
      (rest : Bool → Result (List Finding))
      → ((dormant : Bool) → Grounded clock context trigger meta (rest dormant))
      → Grounded clock context trigger meta (is_dormant clock trigger >>= rest)
  behind_dormant rest h = record {
    findings = OnOk-bind _ (is_dormant clock trigger) rest (λ dormant _. (h dormant).findings);
    returns = λ readable. let (dormant, e) = readable.2 in rw e ((h dormant).returns readable);
  }

  module _ (related : List CanonicalEvent) (fingerprint explanation : String)
      (known : Known context trigger related) where
    pub identity :
        Grounded clock context trigger meta
          (identity_report clock meta trigger related fingerprint explanation context)
    identity = record {
      findings =
          identity_report-Grounded context trigger clock meta related fingerprint explanation known;
      returns = λ readable.
          identity_report-Returned context trigger clock meta related fingerprint explanation known
            readable.0;
    }

    pub shared :
        Grounded clock context trigger meta
          (shared_report clock meta trigger related fingerprint explanation context)
    shared = record {
      findings =
          shared_report-Grounded context trigger clock meta related fingerprint explanation known;
      returns = λ readable.
          shared_report-Returned context trigger clock meta related fingerprint explanation known;
    }
