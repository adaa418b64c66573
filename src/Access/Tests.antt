-- ===== src/Access/Tests.antt =====
-- Actors of two tenants, and the theorems at them.
use blue_team_os.Prelude.{◌≡◌, refl, true, false, ◌&&◌, some, [], ◌∷◌, ◌==◌, any, mem_text, lookup}
use blue_team_os.Errors.{ok, ◌>>=◌}
use blue_team_os.Value.{text}
use blue_team_os.Access.Roles.{role_catalog, permissions_for_roles}
use blue_team_os.Access.Auth.{
  ApiKey, Db, Actor, Crypto, actor_of_key, actor_from_api_key, memberships_in, role_keys_of, bound,
  bind_tenant, require_permission,
}
use blue_team_os.Access.Bind.{
  is_granted, require_permission-bind_tenant, bind_tenant-actor_from_api_key,
}
use blue_team_os.Access.Catalog.{permissions_for_roles-admin}

abbrev crypto : Crypto
crypto = record {
  verify_password = λ password hash. password == hash;
  decode_token = λ token. some (("sub", text token) ∷ []);
  sha256_hex = λ s. s;
}

abbrev key_a : ApiKey
key_a = record {
  id = "key_1";
  tenant_id = "ten_a";
  name = "ingest";
  key_hash = "raw";
  status = "active";
}

abbrev db : Db
db = record {
  users = [];
  memberships =
      record { id = "mem_1"; tenant_id = "ten_a"; user_id = "usr_1"; role_key = "analyst" } ∷ [];
  api_keys = key_a ∷ [];
}

abbrev analyst : Actor
analyst = record {
  user_id = "usr_1";
  email = some "a@example.org";
  display_name = "A";
  is_platform_admin = false;
  tenant_ids = "ten_a" ∷ [];
  actor_type = "user";
  request_id = "req_1";
}

analyst_reads :
    (bind_tenant db analyst "ten_a" >>= λ a. require_permission a "incidents:read")
    ≡ ok (bound analyst "ten_a" ("analyst" ∷ []))
unfolding bind_tenant require_permission role_keys_of memberships_in permissions_for_roles
    role_catalog lookup mem_text
analyst_reads = refl

require_permission-bind_tenant_example :
    (mem_text "ten_a" ("ten_a" ∷ []) ≡ true)
    × (is_granted db "usr_1" "ten_a" "incidents:read" ≡ true)
require_permission-bind_tenant_example =
    require_permission-bind_tenant db analyst "ten_a" "incidents:read"
      (bound analyst "ten_a" ("analyst" ∷ [])) refl refl analyst_reads

abbrev key_actor_a : Actor
key_actor_a = actor_of_key crypto db "req_1" key_a

key_known : actor_from_api_key crypto db "raw" "req_1" ≡ ok key_actor_a
unfolding actor_from_api_key
key_known = refl

key_bound :
    bind_tenant db key_actor_a "ten_a" ≡ ok (bound key_actor_a "ten_a" ("detection_engineer" ∷ []))
unfolding bind_tenant role_keys_of mem_text
key_bound = refl

bind_tenant-actor_from_api_key_example :
    (any
        (λ (key : ApiKey).
          (key.key_hash == crypto.sha256_hex "raw" && key.status == "active")
          && key.tenant_id == "ten_a")
        (key_a ∷ [])
      ≡ true)
    × ((bound key_actor_a "ten_a" ("detection_engineer" ∷ [])).permissions
        ≡ permissions_for_roles ("detection_engineer" ∷ []))
bind_tenant-actor_from_api_key_example =
    bind_tenant-actor_from_api_key crypto db "raw" "req_1" "ten_a" key_actor_a
      (bound key_actor_a "ten_a" ("detection_engineer" ∷ [])) key_known key_bound

permissions_for_roles-admin_example :
    mem_text "admin:platform" (permissions_for_roles ("tenant_owner" ∷ []))
    ≡ mem_text "platform_super_admin" ("tenant_owner" ∷ [])
permissions_for_roles-admin_example = permissions_for_roles-admin ("tenant_owner" ∷ [])
