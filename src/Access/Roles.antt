-- ===== src/Access/Roles.antt =====
-- services/api/app/domain/permissions.py: the permissions, the roles and what they grant.
use blue_team_os.Prelude.{String, Option, none, some, List, [], ◌∷◌, ◌++◌, lookup}

abbrev pub permissions : List (String × String)
permissions =
    ("tenants:read", "Read tenant metadata")
    ∷ ("tenants:write", "Create or modify tenants")
    ∷ ("users:read", "Read users")
    ∷ ("users:write", "Create or modify users and memberships")
    ∷ ("roles:read", "Read role catalogue")
    ∷ ("roles:write", "Modify custom roles")
    ∷ ("audit:read", "Read audit records")
    ∷ ("events:ingest", "Ingest telemetry")
    ∷ ("events:read", "Read tenant telemetry metadata")
    ∷ ("detections:read", "Read detection catalogue and findings")
    ∷ ("detections:write", "Change detection configuration")
    ∷ ("alerts:read", "Read alerts")
    ∷ ("alerts:write", "Update alert status")
    ∷ ("incidents:read", "Read incidents")
    ∷ ("incidents:write", "Modify incidents")
    ∷ ("evidence:read", "Read evidence metadata")
    ∷ ("evidence:write", "Register evidence")
    ∷ ("evidence:export", "Export evidence manifests")
    ∷ ("quality:read", "Read quality index")
    ∷ ("blue_range:execute", "Execute Blue Range scenarios")
    ∷ ("hunts:execute", "Execute BlueQL and registered SQL hunts")
    ∷ ("intel:read", "Read threat intelligence indicators")
    ∷ ("intel:write", "Create or deactivate threat intelligence indicators")
    ∷ ("languages:read", "Read polyglot language catalogue and policy")
    ∷ ("broker:execute", "Submit registered broker actions")
    ∷ ("response:tier0", "Execute Tier-0 actions")
    ∷ ("response:tier1", "Request Tier-1 actions")
    ∷ ("response:tier2", "Request Tier-2 actions")
    ∷ ("admin:platform", "Platform super-admin operations")
    ∷ []

abbrev pub analyst_perms : List String
analyst_perms =
    ("tenants:read" ∷ "users:read" ∷ "roles:read" ∷ "audit:read" ∷ "events:read" ∷ "detections:read"
      ∷ "alerts:read" ∷ "incidents:read" ∷ "incidents:write" ∷ "evidence:read" ∷ "quality:read"
      ∷ "languages:read" ∷ "hunts:execute" ∷ "intel:read" ∷ [])

abbrev pub hunter_perms : List String
hunter_perms = analyst_perms ++ ("events:ingest" ∷ "intel:write" ∷ [])

abbrev pub detection_engineer_perms : List String
detection_engineer_perms =
    analyst_perms
    ++ ("detections:write" ∷ "events:ingest" ∷ "blue_range:execute" ∷ "quality:read" ∷ [])

abbrev pub responder_perms : List String
responder_perms =
    analyst_perms
    ++ ("alerts:write" ∷ "evidence:write" ∷ "evidence:export" ∷ "response:tier0" ∷ "response:tier1"
        ∷ "response:tier2" ∷ "broker:execute" ∷ [])

abbrev pub admin_perms : List String
admin_perms =
    detection_engineer_perms
    ++ responder_perms
    ++ ("users:write" ∷ "tenants:write" ∷ "roles:write" ∷ "intel:write" ∷ [])

pub record RoleDefinition : Type 0 where
  pub key : String
  pub name : String
  pub description : String
  pub permissions : List String

abbrev role : String → String → String → List String → RoleDefinition
role key name description permissions = record {
  key = key;
  name = name;
  description = description;
  permissions = permissions;
}

unfoldable pub role_catalog : List (String × RoleDefinition)
role_catalog =
    (
      "platform_super_admin",
      role "platform_super_admin" "Platform Super Admin" "Cross-tenant platform administration"
          (admin_perms ++ "admin:platform" ∷ []),
    )
    ∷ (
      "tenant_owner",
      role "tenant_owner" "Tenant Owner" "Owns a tenant and its memberships" (admin_perms),
    )
    ∷ (
      "security_admin",
      role "security_admin" "Security Admin" "Security configuration and user administration"
          (admin_perms),
    )
    ∷ (
      "soc_manager",
      role "soc_manager" "SOC Manager" "Operations management and quality review"
          (responder_perms ++ "users:read" ∷ "blue_range:execute" ∷ []),
    )
    ∷ (
      "senior_analyst",
      role "senior_analyst" "Senior Analyst" "Lead investigation and incident ownership"
          (responder_perms),
    )
    ∷ ("analyst", role "analyst" "Analyst" "Investigate alerts and incidents" (analyst_perms))
    ∷ (
      "threat_hunter",
      role "threat_hunter" "Threat Hunter" "Search telemetry and develop hunts" (hunter_perms),
    )
    ∷ (
      "detection_engineer",
      role "detection_engineer" "Detection Engineer" "Author, test, and promote detections"
          (detection_engineer_perms),
    )
    ∷ (
      "incident_responder",
      role "incident_responder" "Incident Responder" "Containment and evidence handling"
          (responder_perms),
    )
    ∷ (
      "auditor",
      role "auditor" "Auditor" "Read-only access including audit and evidence" (
          "tenants:read" ∷ "users:read" ∷ "roles:read" ∷ "audit:read" ∷ "events:read"
          ∷ "detections:read" ∷ "alerts:read" ∷ "incidents:read" ∷ "evidence:read" ∷ "quality:read"
          ∷ []),
    )
    ∷ (
      "read_only",
      role "read_only" "Read Only" "Non-sensitive operational read access" (
          "tenants:read" ∷ "alerts:read" ∷ "incidents:read" ∷ "detections:read" ∷ "quality:read"
          ∷ []),
    )
    ∷ []

abbrev pub granted_by : Option RoleDefinition → List String
granted_by none = []
granted_by (some r) = r.permissions

-- The set of granted permissions is a list, which is read by membership.
unfoldable pub permissions_for_roles : List String → List String
permissions_for_roles [] = []
permissions_for_roles (key ∷ role_keys) =
    granted_by (lookup key role_catalog) ++ permissions_for_roles role_keys
