-- ===== src/Access/Catalog.antt =====
-- What the catalogue of roles grants.
use blue_team_os.Prelude.{
  ◌∙◌, sym, subst, eq_refl, lookup-All, ◌≡◌, refl, inl, inr, String, Bool, true, ◌||◌, not, Option,
  none, some, List, [], ◌∷◌, ◌==◌, eq_iff, mem_text, mem_text-append, lookup, All, Bool-cases,
  arith,
}
use blue_team_os.Access.Roles.{RoleDefinition, role_catalog, granted_by, permissions_for_roles}

-- An entry that grants platform administration has the key of the platform's super administrator.
abbrev grants_admin_only : String × RoleDefinition → Bool
grants_admin_only (key, r) =
    not (mem_text "admin:platform" r.permissions) || (key == "platform_super_admin")

catalog_admin : All (λ e. grants_admin_only e ≡ true) role_catalog
unfolding role_catalog mem_text
catalog_admin =
    (refl, (refl, (refl, (refl, (refl, (refl, (refl, (refl, (refl, (refl, (refl, tt)))))))))))

role_admin :
    (key : String)
    → mem_text "admin:platform" (granted_by (lookup key role_catalog)) ≡ true
    → key ≡ "platform_super_admin"
unfolding mem_text
role_admin key h = by_role (lookup key role_catalog) refl h
  where
    by_role :
        (found : Option RoleDefinition)
        → lookup key role_catalog ≡ found
        → mem_text "admin:platform" (granted_by found) ≡ true
        → key ≡ "platform_super_admin"
    by_role none e h' = ground arith
    by_role (some r) e h' = ground (
      arith,
      h',
      eq_iff key "platform_super_admin",
      lookup-All (λ e. grants_admin_only e ≡ true) key role_catalog catalog_admin e,
    )

has_admin :
    mem_text "admin:platform" (granted_by (lookup "platform_super_admin" role_catalog)) ≡ true
unfolding role_catalog lookup mem_text
has_admin = refl

role_admin_iff :
    (key : String)
    → mem_text "admin:platform" (granted_by (lookup key role_catalog))
      ≡ ("platform_super_admin" == key)
role_admin_iff key = elim (Bool-cases ("platform_super_admin" == key)) [
  | inl e ↦
      subst
        (λ k.
          mem_text "admin:platform" (granted_by (lookup k role_catalog))
          ≡ ("platform_super_admin" == k))
        (same_text e) (has_admin ∙ sym (eq_refl "platform_super_admin"))
  | inr e ↦ elim (Bool-cases (mem_text "admin:platform" (granted_by (lookup key role_catalog)))) [
    | inr lacks ↦ lacks ∙ sym e
    | inl h ↦ ground (arith, e, eq_iff "platform_super_admin" key, role_admin key h)
  ]
]
  where
    same_text : ("platform_super_admin" == key) ≡ true → "platform_super_admin" ≡ key
    same_text e = ground (arith, eq_iff "platform_super_admin" key)

-- The permissions that the catalogue gives for a list of role keys contain admin:platform exactly where
-- the key of the platform's super administrator is in the list.
pub permissions_for_roles-admin :
    (role_keys : List String)
    → mem_text "admin:platform" (permissions_for_roles role_keys)
      ≡ mem_text "platform_super_admin" role_keys
unfolding permissions_for_roles mem_text
permissions_for_roles-admin [] = refl
permissions_for_roles-admin (key ∷ role_keys) =
    mem_text-append "admin:platform" (granted_by (lookup key role_catalog))
      (permissions_for_roles role_keys)
    ∙ ground (arith, role_admin_iff key, permissions_for_roles-admin role_keys)
