-- ===== src/Detection/Complete.antt =====
-- No finding of a rule that runs is lost: DetectionRegistry.evaluate of registry.py.
use mathlib.Core.List.{Memᴰ}
use mathlib.Core.List.Memᴰ
use blue_team_os.Prelude.{
  ◌≡◌, inl, inr, false, Bool-cases, List, [], ◌∷◌, All, All-map, All-Mem, All-of_member, values,
  subst,
}
use blue_team_os.Errors.{ok, returned_bind, ok_injective}
use blue_team_os.Event.{CanonicalEvent}
use blue_team_os.Detection.Context.{
  Finding, DetectionContext, DetectionRule, DetectionRegistry, is_skipped, evaluate_rules, evaluate,
}

module _ (event : CanonicalEvent) (context : DetectionContext) where
  -- The rule has returned, and all that it has returned is in the list.
  abbrev pub IsKept : List Finding → DetectionRule → Type 0
  IsKept reported rule =
      (found : List Finding) × (rule.evaluate event context ≡ ok found)
      × All (λ finding. Memᴰ finding reported) found

  evaluate_rules-IsKept :
      (rules : List DetectionRule) (reported : List Finding)
      → evaluate_rules rules event context ≡ ok reported
      → All (λ rule. is_skipped rule context ≡ false → IsKept reported rule) rules
  unfolding evaluate_rules
  evaluate_rules-IsKept [] reported h = tt
  evaluate_rules-IsKept (rule ∷ rules) reported h = elim (Bool-cases (is_skipped rule context)) [
    | inl skipped ↦ (λ due. cc, evaluate_rules-IsKept rules reported (rw skipped at h))
    | inr due ↦
        let (found, own, h') = returned_bind (rule.evaluate event context) _ (rw due at h) in
        let (more, rest, e) = returned_bind (evaluate_rules rules event context) _ h' in
        let whole = ok_injective e in
        (
          λ _. (
            found,
            own,
            All-map _ (λ f there. subst (λ fs. Memᴰ f fs) whole (Memᴰ.append_left more there)) found
                (All-Mem found),
          ),
          All-map _
              (λ other kept due'.
                let (theirs, e', ms) = kept due' in
                (
                  theirs,
                  e',
                  All-map _
                      (λ f there. subst (λ fs. Memᴰ f fs) whole (Memᴰ.append_right found there))
                      theirs ms,
                ))
              rules (evaluate_rules-IsKept rules more rest),
        )
  ]

  -- Where a registry returns for an event, a rule of the registry that the run does not skip has returned
  -- too, and every finding that it has returned is among those that the registry returns.
  pub evaluate-IsKept :
      (registry : DetectionRegistry) (reported : List Finding) (rule : DetectionRule)
      → evaluate registry event context ≡ ok reported
      → Memᴰ rule (values registry)
      → is_skipped rule context ≡ false
      → IsKept reported rule
  unfolding evaluate
  evaluate-IsKept registry reported rule h there due =
      All-of_member (λ (r : DetectionRule). is_skipped r context ≡ false → IsKept reported r)
        (values registry) (evaluate_rules-IsKept (values registry) reported h) there due
