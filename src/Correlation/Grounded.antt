-- ===== src/Correlation/Grounded.antt =====
-- The findings that a storyline is made of.
use mathlib.Core.List.{Memᴰ}
use blue_team_os.Prelude.{
  ℕ, ◌≤◌, ◌≡◌, refl, sym, ap, append-nil, map, String, Bool, ◌&&◌, ◌||◌, not, Option, none, some,
  List, [], ◌∷◌, ◌++◌, ◌==◌, filter, find_first, null, inl, inr, All, All-append, Bool-cases, arith,
  if_ind,
}
use blue_team_os.Event.{CanonicalEvent}
use blue_team_os.Detection.Context.{Finding}
use blue_team_os.Correlation.{
  StorylineStage, Storyline, evidence_ids_of, earliest, latest, story, times_of,
}
use blue_team_os.Correlation.Rules.{concat}
use blue_team_os.Correlation.Chains.{
  exists, is_later_success, by_id, overlap_user, near, identity_chain, identity_story, grant_of,
  events_of, evidence_of, office_c2, office_of, goes_with, lateral_c2,
}

earliest-le : (t : ℕ) (times : List ℕ) → earliest t times ≤ t
earliest-le t [] = omega arith
earliest-le t (u ∷ times) = ground (arith, earliest-le u times)

latest-le : (t : ℕ) (times : List ℕ) → t ≤ latest t times
latest-le t [] = omega arith
latest-le t (u ∷ times) = ground (arith, latest-le u times)

pub earliest-latest : (t : ℕ) (times : List ℕ) → earliest t times ≤ latest t times
earliest-latest t times = omega (arith, earliest-le t times, latest-le t times)

module _ (findings : List Finding) where
  -- Made of one or more findings: the tenant is that of the first, the events and the evidence are those
  -- of all of them and no others, in their order; and the end is not before the start.
  pub record IsGrounded (s : Storyline) : Type 0 where
    pub first : Finding
    pub others : List Finding
    pub known : All (λ f. Memᴰ f findings) (first ∷ others)
    pub tenant : s.tenant_id ≡ first.tenant_id
    pub events : s.event_ids ≡ concat (map (λ (f : Finding). f.event_ids) (first ∷ others))
    pub evidence : s.evidence_ids ≡ concat (map evidence_ids_of (first ∷ others))
    pub ordered : s.start ≤ s.end

  abbrev pub Known : List Finding → Type 0
  Known = All (λ f. Memᴰ f findings)

  pub filter-Known : (p : Finding → Bool) (fs : List Finding) → Known fs → Known (filter p fs)
  filter-Known p [] h = tt
  filter-Known p (f ∷ fs) h = elim (Bool-cases (p f)) [
    | inl e ↦ rw e (h.0, filter-Known p fs h.1)
    | inr e ↦ rw e (filter-Known p fs h.1)
  ]

  abbrev Found : Option Finding → Type 0
  Found none = Unit
  Found (some f) = Memᴰ f findings

  find_first-Found : (p : Finding → Bool) (fs : List Finding) → Known fs → Found (find_first p fs)
  find_first-Found p [] h = tt
  find_first-Found p (f ∷ fs) h = elim (Bool-cases (p f)) [
    | inl e ↦ rw e h.0
    | inr e ↦ rw e (find_first-Found p fs h.1)
  ]

  abbrev with_option : Option Finding → List Finding
  with_option none = []
  with_option (some f) = f ∷ []

  with_option-Known : (o : Option Finding) → Found o → Known (with_option o)
  with_option-Known none h = tt
  with_option-Known (some f) h = (h, tt)

  events_with :
      (o : Option Finding)
      → events_of o ≡ concat (map (λ (f : Finding). f.event_ids) (with_option o))
  events_with none = refl
  events_with (some f) = sym (append-nil _)

  evidence_with :
      (o : Option Finding) → evidence_of o ≡ concat (map evidence_ids_of (with_option o))
  evidence_with none = refl
  evidence_with (some f) = sym (append-nil _)

  module _ (new_id : String) where
    story-IsGrounded :
        (f : Finding) (o : Option Finding) (title : String) (time : ℕ)
        (stages : List StorylineStage) (techniques : List String)
        (entities : List (String × List String)) (confidence : ℕ)
        → Memᴰ f findings
        → Found o
        → IsGrounded (
            story new_id f.tenant_id title time stages techniques
              (evidence_ids_of f ++ evidence_of o)
              (f.event_ids ++ events_of o)
              entities
              confidence)
    unfolding story
    story-IsGrounded f o title time stages techniques entities confidence there found = record {
      first = f;
      others = with_option o;
      known = (there, with_option-Known o found);
      tenant = refl;
      events = ap (λ ids. f.event_ids ++ ids) (events_with o);
      evidence = ap (λ ids. evidence_ids_of f ++ ids) (evidence_with o);
      ordered = earliest-latest time (times_of stages);
    }

    pub identity_chain-IsGrounded :
        (sprays : List Finding) (events : List CanonicalEvent)
        → Known sprays
        → Known findings
        → All IsGrounded (identity_chain new_id sprays findings events)
    unfolding identity_chain
    identity_chain-IsGrounded [] events h k = tt
    identity_chain-IsGrounded (spray ∷ sprays) events h k =
        let rest = identity_chain-IsGrounded sprays events h.1 k in
        let found =
          find_first-Found (λ item. overlap_user spray item || near spray item) _
            (filter-Known (λ item. item.rule_id == "identity.privilege_grant") findings k) in
        let grant = grant_of spray findings in
        let later_success = filter (is_later_success spray) (by_id [] events) in
        if_ind (All IsGrounded)
          (not (exists grant)
            && (null later_success
                && null (filter (λ item. item.rule_id == "identity.brute_force") findings)))
          (identity_chain new_id sprays findings events)
          (identity_story new_id spray grant later_success
            ∷ identity_chain new_id sprays findings events)
          (λ _. rest)
          (λ _. (story-IsGrounded spray (grant_of spray findings) _ _ _ _ _ _ h.0 found, rest))

    office_of-IsGrounded :
        (spawn : Finding) (o : Option Finding)
        → Memᴰ spawn findings
        → Found o
        → All IsGrounded (office_of new_id spawn o)
    office_of-IsGrounded spawn none h k = tt
    office_of-IsGrounded spawn (some match) h k =
        (story-IsGrounded spawn (some match) _ _ _ _ _ _ h k, tt)

    pub office_c2-IsGrounded :
        (office beacons : List Finding)
        → Known office
        → Known beacons
        → All IsGrounded (office_c2 new_id office beacons)
    unfolding office_c2
    office_c2-IsGrounded [] beacons h k = tt
    office_c2-IsGrounded (spawn ∷ office) beacons h k =
        All-append _ _ _
          (office_of-IsGrounded spawn _ h.0 (find_first-Found (goes_with spawn) beacons k))
          (office_c2-IsGrounded office beacons h.1 k)

    pub lateral_c2-IsGrounded :
        (east beacons : List Finding)
        → Known east
        → Known beacons
        → All IsGrounded (lateral_c2 new_id east beacons)
    unfolding lateral_c2
    lateral_c2-IsGrounded [] beacons h k = tt
    lateral_c2-IsGrounded (spawn ∷ east) [] h k = tt
    lateral_c2-IsGrounded (spawn ∷ east) (beacon ∷ beacons) h k =
        (story-IsGrounded spawn (some beacon) _ _ _ _ _ _ h.0 k.0, tt)
