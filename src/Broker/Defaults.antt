-- ===== src/Broker/Defaults.antt =====
-- The registry that the broker starts with.
use blue_team_os.Prelude.{
  ◌≡◌, refl, ◌⊎◌, inl, inr, String, true, false, none, some, All, lookup, lookup-All,
}
use blue_team_os.Broker.Registry.{ActionSpec, default_registry}

-- An entry is a read-only action of tier 0, or an action that writes: that one has tier 2, wants the
-- permission of that tier, and names no script.
abbrev pub IsSafeEntry : String × ActionSpec → Type 0
IsSafeEntry (k, spec) =
    (spec.action_type ≡ k)
    × (((spec.read_only ≡ true) × (spec.tier ≡ 0))
        ⊎ ((spec.read_only ≡ false)
            × (spec.tier ≡ 2)
            × (spec.required_permission ≡ "response:tier2")
            × (spec.script_path ≡ none)))

entries_safe : All IsSafeEntry default_registry
unfolding default_registry
entries_safe = (
  (refl, inl (refl, refl)),
  (
    (refl, inl (refl, refl)),
    (
      (refl, inl (refl, refl)),
      (
        (refl, inl (refl, refl)),
        (
          (refl, inl (refl, refl)),
          (
            (refl, inl (refl, refl)),
            (
              (refl, inl (refl, refl)),
              (
                (refl, inl (refl, refl)),
                (
                  (refl, inl (refl, refl)),
                  (
                    (refl, inl (refl, refl)),
                    (
                      (refl, inl (refl, refl)),
                      (
                        (refl, inl (refl, refl)),
                        (
                          (refl, inl (refl, refl)),
                          (
                            (refl, inl (refl, refl)),
                            (
                              (refl, inl (refl, refl)),
                              (
                                (refl, inl (refl, refl)),
                                (
                                  (refl, inl (refl, refl)),
                                  (
                                    (refl, inl (refl, refl)),
                                    (
                                      (refl, inr (refl, refl, refl, refl)),
                                      (
                                        (refl, inr (refl, refl, refl, refl)),
                                        (
                                          (refl, inr (refl, refl, refl, refl)),
                                          ((refl, inr (refl, refl, refl, refl)), tt),
                                        ),
                                      ),
                                    ),
                                  ),
                                ),
                              ),
                            ),
                          ),
                        ),
                      ),
                    ),
                  ),
                ),
              ),
            ),
          ),
        ),
      ),
    ),
  ),
)

-- Each action that the default registry finds under a name carries that name, and is read-only of
-- tier 0, or writes, has tier 2, wants the permission response:tier2 and names no script.
pub default_registry-IsSafeEntry :
    (a : String) (spec : ActionSpec) → lookup a default_registry ≡ some spec → IsSafeEntry (a, spec)
default_registry-IsSafeEntry a spec e = lookup-All IsSafeEntry a default_registry entries_safe e
