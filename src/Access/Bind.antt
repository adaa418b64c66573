-- ===== src/Access/Bind.antt =====
-- What a bound actor may do, and where its permissions come from.
use blue_team_os.Prelude.{
  some_injective, lookup, ◌≡◌, refl, ◌∙◌, sym, ap, String, Bool, true, false, ◌&&◌, ◌||◌, not,
  Option, none, some, List, [], ◌∷◌, ◌==◌, eq_iff, mem_text, mem_text-append, map, filter, any,
  find_first, null, if◌then◌else◌, subst, arith,
}
use blue_team_os.Errors.{Error, Result, ok, err, ◌>>=◌, returned_bind, ok_injective}
use blue_team_os.Access.Roles.{granted_by, role_catalog, permissions_for_roles}
use blue_team_os.Access.Auth.{
  Membership, ApiKey, Db, Actor, TenantActor, Crypto, memberships_in, role_keys_of, bind_tenant,
  require_permission, actor_from_api_key, key_actor, actor_of_key, bound,
}

-- The membership's role grants the permission.
abbrev pub role_grants : String → Membership → Bool
role_grants permission m = mem_text permission (permissions_for_roles (m.role_key ∷ []))

-- The user has a membership in the tenant whose role grants the permission.
abbrev pub is_granted : Db → (user_id tenant_id permission : String) → Bool
is_granted db user_id tenant_id permission =
    any (λ m. (m.user_id == user_id && m.tenant_id == tenant_id) && role_grants permission m)
      db.memberships

any-filter {ℓ} :
    {A : Type ℓ} (p q : A → Bool) (xs : List A) → any q (filter p xs) ≡ any (λ x. p x && q x) xs
any-filter p q [] = refl
any-filter p q (x ∷ xs) = ground (arith, any-filter p q xs)

permissions_for_roles-any :
    (permission : String) (ms : List Membership)
    → mem_text permission (permissions_for_roles (map (λ m. m.role_key) ms))
      ≡ any (role_grants permission) ms
unfolding permissions_for_roles mem_text
permissions_for_roles-any permission [] = refl
permissions_for_roles-any permission (m ∷ ms) = ground (
  arith,
  mem_text-append permission (granted_by (lookup m.role_key role_catalog)) [],
  mem_text-append permission (granted_by (lookup m.role_key role_catalog))
      (permissions_for_roles (map (λ m. m.role_key) ms)),
  permissions_for_roles-any permission ms,
)

-- A guard that raises, when nothing was raised.
guard_ok {ℓ} :
    {A : Type ℓ} (b : Bool) (e : Error) (rest : Result A) {value : A}
    → (if b then err e else rest) ≡ ok value
    → (b ≡ false) × (rest ≡ ok value)
guard_ok true e rest h = absurd cc
guard_ok false e rest h = (refl, h)

-- What a successful bind has checked.
bind_tenant-ok :
    (db : Db) (actor : Actor) (tenant_id : String) (bound_actor : TenantActor)
    → bind_tenant db actor tenant_id ≡ ok bound_actor
    → ((mem_text tenant_id actor.tenant_ids || actor.is_platform_admin) ≡ true)
      × (bound_actor ≡ bound actor tenant_id (role_keys_of db actor tenant_id))
unfolding bind_tenant
bind_tenant-ok db actor tenant_id bound_actor h =
    let (own, h1) =
      guard_ok (not (mem_text tenant_id actor.tenant_ids) && not actor.is_platform_admin) _ _ h in
    let (named, h2) =
      guard_ok (null (role_keys_of db actor tenant_id) && not actor.is_platform_admin) _ _ h1 in
    (ground (arith, own), sym (ok_injective h2))

require_permission-ok :
    (a : TenantActor) (permission : String) (b : TenantActor)
    → a.actor.is_platform_admin ≡ false
    → require_permission a permission ≡ ok b
    → mem_text permission a.permissions ≡ true
unfolding require_permission
require_permission-ok a permission b human h = ground arith

-- A user who is no platform administrator has the roles of the memberships.
role_keys_of-user :
    (db : Db) (actor : Actor) (tenant_id : String)
    → actor.is_platform_admin ≡ false
    → (actor.actor_type == "api_key") ≡ false
    → role_keys_of db actor tenant_id
      ≡ map (λ m. m.role_key) (memberships_in db actor.user_id tenant_id)
unfolding role_keys_of
role_keys_of-user db actor tenant_id human user = ground arith

-- A user who is no platform administrator and passes the check of a permission in a tenant has that
-- tenant among the tenant_ids of the actor, and a membership in it whose role grants the permission.
pub require_permission-bind_tenant :
    (db : Db) (actor : Actor) (tenant_id permission : String) (bound_actor : TenantActor)
    → actor.is_platform_admin ≡ false
    → (actor.actor_type == "api_key") ≡ false
    → (bind_tenant db actor tenant_id >>= λ bound_actor. require_permission bound_actor permission)
      ≡ ok bound_actor
    → (mem_text tenant_id actor.tenant_ids ≡ true)
      × (is_granted db actor.user_id tenant_id permission ≡ true)
unfolding memberships_in
require_permission-bind_tenant db actor tenant_id permission bound_actor human user h =
    let (mid, b, q) = returned_bind (bind_tenant db actor tenant_id) _ h in
    let (own, same) = bind_tenant-ok db actor tenant_id mid b in
    (
      ground (arith, own, human),
      granted (
          require_permission-ok (bound actor tenant_id (role_keys_of db actor tenant_id)) permission
            bound_actor human
            (subst (λ a. require_permission a permission ≡ ok bound_actor) same q)),
    )
  where
    granted :
        mem_text permission (permissions_for_roles (role_keys_of db actor tenant_id)) ≡ true
        → is_granted db actor.user_id tenant_id permission ≡ true
    granted k =
        sym (
          any-filter (λ m. m.user_id == actor.user_id && m.tenant_id == tenant_id)
            (role_grants permission) db.memberships)
        ∙ sym (permissions_for_roles-any permission (memberships_in db actor.user_id tenant_id))
        ∙ ap (λ ks. mem_text permission (permissions_for_roles ks))
            (sym (role_keys_of-user db actor tenant_id human user))
        ∙ k

find_first-any {ℓ} :
    {A : Type ℓ} (p q : A → Bool) (xs : List A) (x : A)
    → find_first p xs ≡ some x
    → q x ≡ true
    → any (λ y. p y && q y) xs ≡ true
find_first-any p q [] x h k = absurd cc
find_first-any {A} p q (y ∷ ys) x h k = by_head (p y) refl (λ h'. find_first-any p q ys x h' k) h
  where
    by_head :
        (b : Bool)
        → p y ≡ b
        → (find_first p ys ≡ some x → any (λ z. p z && q z) ys ≡ true)
        → (if b then some y else find_first p ys) ≡ some x
        → ((p y && q y) || any (λ z. p z && q z) ys) ≡ true
    by_head true e later h' = rw e (
        subst (λ z. (q z || any (λ w. p w && q w) ys) ≡ true) (sym (some_injective h')) (rw k refl))
    by_head false e later h' = rw e (later h')

-- An actor of an API key binds only to the tenant of an active key with the digest of the raw key, and
-- has there exactly the permissions of a detection engineer.
pub bind_tenant-actor_from_api_key :
    (crypto : Crypto) (db : Db) (raw_key request_id tenant_id : String) (actor : Actor)
    (bound_actor : TenantActor)
    → actor_from_api_key crypto db raw_key request_id ≡ ok actor
    → bind_tenant db actor tenant_id ≡ ok bound_actor
    → (any
          (λ key.
            (key.key_hash == crypto.sha256_hex raw_key && key.status == "active")
            && key.tenant_id == tenant_id)
          db.api_keys
        ≡ true)
      × (bound_actor.permissions ≡ permissions_for_roles ("detection_engineer" ∷ []))
unfolding actor_from_api_key role_keys_of mem_text
bind_tenant-actor_from_api_key crypto db raw_key request_id tenant_id actor bound_actor h b =
    by_key _ refl h
  where
    by_key :
        (found : Option ApiKey)
        → find_first
            (λ (key : ApiKey). key.key_hash == crypto.sha256_hex raw_key && key.status == "active")
            db.api_keys
          ≡ found
        → key_actor crypto db request_id found ≡ ok actor
        → (any
              (λ (key : ApiKey).
                (key.key_hash == crypto.sha256_hex raw_key && key.status == "active")
                && key.tenant_id == tenant_id)
              db.api_keys
            ≡ true)
          × (bound_actor.permissions ≡ permissions_for_roles ("detection_engineer" ∷ []))
    by_key none e k = absurd cc
    by_key (some key) e k =
        let (own, same) =
          bind_tenant-ok db (actor_of_key crypto db request_id key) tenant_id bound_actor
            (subst (λ a. bind_tenant db a tenant_id ≡ ok bound_actor) (sym (ok_injective k)) b) in
        (
          find_first-any
              (λ (key : ApiKey).
                key.key_hash == crypto.sha256_hex raw_key && key.status == "active")
              (λ key. key.tenant_id == tenant_id) db.api_keys key e
              (ground (arith, own, eq_iff key.tenant_id tenant_id, eq_iff tenant_id key.tenant_id)),
          ap (λ a. a.permissions) same,
        )
