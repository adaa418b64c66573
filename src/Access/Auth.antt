-- ===== src/Access/Auth.antt =====
-- auth.py: actors, and the tenants that they are bound to.
use Prim.Native.String.{◌++◌ as text_append}
use blue_team_os.Prelude.{
  sorted_set, String, Bool, true, false, ◌&&◌, ◌||◌, not, Option, none, some, List, [], ◌∷◌, ◌==◌,
  mem_text, lower_is, map, filter, find_first, null, lookup, if◌then◌else◌,
}
use blue_team_os.Errors.{Result, ok, err, ◌>>=◌, unauthorized, permission_denied}
use blue_team_os.Value.{Value, text, Doc}
use blue_team_os.Access.Roles.{permissions_for_roles}

pub record User : Type 0 where
  pub id : String
  pub email : String
  pub display_name : String
  pub password_hash : String
  pub status : String
  pub is_platform_admin : Bool

pub record Membership : Type 0 where
  pub id : String
  pub tenant_id : String
  pub user_id : String
  pub role_key : String

pub record ApiKey : Type 0 where
  pub id : String
  pub tenant_id : String
  pub name : String
  pub key_hash : String
  pub status : String

pub record Db : Type 0 where
  pub users : List User
  pub memberships : List Membership
  pub api_keys : List ApiKey

pub record Actor : Type 0 where
  pub user_id : String
  pub email : Option String
  pub display_name : String
  pub is_platform_admin : Bool
  pub tenant_ids : List String
  pub actor_type : String
  pub request_id : String

pub record TenantActor : Type 0 where
  pub actor : Actor
  pub tenant_id : String
  pub role_keys : List String
  pub permissions : List String

-- What the service calls: verify_password, decode_token (`none` is an InvalidTokenError), sha256_hex.
pub record Crypto : Type 0 where
  pub verify_password : String → String → Bool
  pub decode_token : String → Option Doc
  pub sha256_hex : String → String

-- select(Membership).where(Membership.user_id == user_id)
unfoldable pub memberships_of : Db → String → List Membership
memberships_of db user_id = filter (λ m. m.user_id == user_id) db.memberships

-- … and Membership.tenant_id == tenant_id
unfoldable pub memberships_in : Db → String → String → List Membership
memberships_in db user_id tenant_id =
    filter (λ m. m.user_id == user_id && m.tenant_id == tenant_id) db.memberships

abbrev subject_of : Option Value → Option String
subject_of (some (text sub)) = some sub
subject_of _ = none

-- db.get(User, sub)
abbrev get_user : Db → Option String → Option User
get_user db none = none
get_user db (some sub) = find_first (λ user. user.id == sub) db.users

abbrev active_user : String → (User → Bool) → Option User → Result User
active_user message passes none = err (unauthorized message)
active_user message passes (some user) =
    if not (user.status == "active") || not (passes user)
    then err (unauthorized message)
    else ok user

module _ (crypto : Crypto) (db : Db) where
  -- The address is compared as ASCII text in lower case.
  unfoldable pub authenticate_password : (email password : String) → Result User
  authenticate_password email password =
      active_user "Invalid credentials" (λ user. crypto.verify_password password user.password_hash)
        (find_first (λ user. lower_is email user.email) db.users)

  abbrev user_actor : String → User → Actor
  user_actor request_id user = record {
    user_id = user.id;
    email = some user.email;
    display_name = user.display_name;
    is_platform_admin = user.is_platform_admin;
    tenant_ids = sorted_set (map (λ m. m.tenant_id) (memberships_of db user.id));
    actor_type = "user";
    request_id = request_id;
  }

  unfoldable pub actor_from_bearer : (token request_id : String) → Result Actor
  actor_from_bearer token request_id = elim (crypto.decode_token token) [
    | none ↦ err (unauthorized "Invalid token")
    | some payload ↦
        active_user "Invalid token subject" (λ user. true)
          (get_user db (subject_of (lookup "sub" payload)))
        >>= λ user. ok (user_actor request_id user)
  ]

  abbrev pub actor_of_key : String → ApiKey → Actor
  actor_of_key request_id key = record {
    user_id = key.id;
    email = none;
    display_name = key.name;
    is_platform_admin = false;
    tenant_ids = key.tenant_id ∷ [];
    actor_type = "api_key";
    request_id = request_id;
  }

  abbrev pub key_actor : String → Option ApiKey → Result Actor
  key_actor request_id none = err (unauthorized "Invalid API key")
  key_actor request_id (some key) = ok (actor_of_key request_id key)

  unfoldable pub actor_from_api_key : (raw_key request_id : String) → Result Actor
  actor_from_api_key raw_key request_id = key_actor request_id (
      find_first (λ key. key.key_hash == crypto.sha256_hex raw_key && key.status == "active")
        db.api_keys)

-- The roles of the actor in the tenant.
unfoldable pub role_keys_of : Db → Actor → String → List String
role_keys_of db actor tenant_id =
    let memberships = memberships_in db actor.user_id tenant_id in
    if actor.actor_type == "api_key"
    then "detection_engineer" ∷ []
    else if actor.is_platform_admin && null memberships
    then "platform_super_admin" ∷ []
    else map (λ m. m.role_key) memberships

abbrev pub bound : Actor → String → List String → TenantActor
bound actor tenant_id role_keys = record {
  actor = actor;
  tenant_id = tenant_id;
  role_keys = role_keys;
  permissions = permissions_for_roles role_keys;
}

unfoldable pub bind_tenant : Db → Actor → String → Result TenantActor
bind_tenant db actor tenant_id =
    if not (mem_text tenant_id actor.tenant_ids) && not actor.is_platform_admin
    then err (permission_denied "Cross-tenant access denied")
    else if null (role_keys_of db actor tenant_id) && not actor.is_platform_admin
    then err (permission_denied "No membership in tenant")
    else ok (bound actor tenant_id (role_keys_of db actor tenant_id))

-- `ok` stands for the return of None.
unfoldable pub require_permission : TenantActor → String → Result TenantActor
require_permission actor permission =
    if actor.actor.is_platform_admin
    then ok actor
    else if not (mem_text permission actor.permissions)
    then err (permission_denied (text_append "Missing permission " permission))
    else ok actor
