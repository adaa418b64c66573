-- ===== src/Broker/Registry.antt =====
-- packages/execution-broker/blueteam_broker/registry.py: the specifications of the registered
-- actions. A script's path is relative to REPO_ROOT, and `metadata`, which no entry fills and no code
-- reads, is left out.
use blue_team_os.Prelude.{ℕ, String, Bool, true, false, Option, none, some, List, [], ◌∷◌}

pub data Language : Type 0 where
  python powershell bash go rust sigma yara sql blueql rego ebpf cpp : Language

pub record ActionSpec : Type 0 where
  pub action_type : String
  pub language : Language
  pub description : String
  pub tier : ℕ
  pub read_only : Bool
  pub required_permission : String
  pub allowed_params : List String
  pub script_path : Option String
  pub rollback_available : Bool
  pub feature_flag : Option String

-- The registry of `default_registry`, in its order.
unfoldable pub default_registry : List (String × ActionSpec)
default_registry =
    (
      "collect.windows.processes",
      record {
        action_type = "collect.windows.processes";
        language = powershell;
        description = "Read-only local process inventory (Windows).";
        tier = 0;
        read_only = true;
        required_permission = "response:tier0";
        allowed_params = "limit" ∷ [];
        script_path = some "security-languages/powershell/windows/Get-BtosProcesses.ps1";
        rollback_available = false;
        feature_flag = none;
      },
    )
    ∷ (
      "collect.windows.defender",
      record {
        action_type = "collect.windows.defender";
        language = powershell;
        description = "Read-only Microsoft Defender status.";
        tier = 0;
        read_only = true;
        required_permission = "response:tier0";
        allowed_params = [];
        script_path = some "security-languages/powershell/windows/Get-BtosDefenderStatus.ps1";
        rollback_available = false;
        feature_flag = none;
      },
    )
    ∷ (
      "collect.windows.scheduled_tasks",
      record {
        action_type = "collect.windows.scheduled_tasks";
        language = powershell;
        description = "Read-only scheduled task inventory.";
        tier = 0;
        read_only = true;
        required_permission = "response:tier0";
        allowed_params = "limit" ∷ [];
        script_path = some "security-languages/powershell/windows/Get-BtosScheduledTasks.ps1";
        rollback_available = false;
        feature_flag = none;
      },
    )
    ∷ (
      "collect.windows.services",
      record {
        action_type = "collect.windows.services";
        language = powershell;
        description = "Read-only service inventory.";
        tier = 0;
        read_only = true;
        required_permission = "response:tier0";
        allowed_params = "limit" ∷ [];
        script_path = some "security-languages/powershell/windows/Get-BtosServices.ps1";
        rollback_available = false;
        feature_flag = none;
      },
    )
    ∷ (
      "collect.windows.local_admins",
      record {
        action_type = "collect.windows.local_admins";
        language = powershell;
        description = "Read-only local Administrators group membership.";
        tier = 0;
        read_only = true;
        required_permission = "response:tier0";
        allowed_params = [];
        script_path = some "security-languages/powershell/windows/Get-BtosLocalAdmins.ps1";
        rollback_available = false;
        feature_flag = none;
      },
    )
    ∷ (
      "collect.windows.events",
      record {
        action_type = "collect.windows.events";
        language = powershell;
        description = "Read-only recent Windows Security events.";
        tier = 0;
        read_only = true;
        required_permission = "response:tier0";
        allowed_params = "max_events" ∷ [];
        script_path = some "security-languages/powershell/windows/Get-BtosWindowsEvents.ps1";
        rollback_available = false;
        feature_flag = none;
      },
    )
    ∷ (
      "collect.windows.auth_events",
      record {
        action_type = "collect.windows.auth_events";
        language = powershell;
        description = "Read-only authentication event query template.";
        tier = 0;
        read_only = true;
        required_permission = "response:tier0";
        allowed_params = "hours" ∷ "max_events" ∷ [];
        script_path = some "security-languages/powershell/windows/Get-BtosAuthEvents.ps1";
        rollback_available = false;
        feature_flag = none;
      },
    )
    ∷ (
      "collect.linux.processes",
      record {
        action_type = "collect.linux.processes";
        language = bash;
        description = "Read-only process inventory (Linux/POSIX).";
        tier = 0;
        read_only = true;
        required_permission = "response:tier0";
        allowed_params = "limit" ∷ [];
        script_path = some "security-languages/shell/linux/collect_processes.sh";
        rollback_available = false;
        feature_flag = none;
      },
    )
    ∷ (
      "collect.linux.sessions",
      record {
        action_type = "collect.linux.sessions";
        language = bash;
        description = "Read-only user session inspection.";
        tier = 0;
        read_only = true;
        required_permission = "response:tier0";
        allowed_params = [];
        script_path = some "security-languages/shell/linux/collect_sessions.sh";
        rollback_available = false;
        feature_flag = none;
      },
    )
    ∷ (
      "collect.linux.sockets",
      record {
        action_type = "collect.linux.sockets";
        language = bash;
        description = "Read-only listening sockets.";
        tier = 0;
        read_only = true;
        required_permission = "response:tier0";
        allowed_params = [];
        script_path = some "security-languages/shell/linux/collect_sockets.sh";
        rollback_available = false;
        feature_flag = none;
      },
    )
    ∷ (
      "collect.linux.systemd",
      record {
        action_type = "collect.linux.systemd";
        language = bash;
        description = "Read-only systemd unit inventory.";
        tier = 0;
        read_only = true;
        required_permission = "response:tier0";
        allowed_params = [];
        script_path = some "security-languages/shell/linux/collect_systemd.sh";
        rollback_available = false;
        feature_flag = none;
      },
    )
    ∷ (
      "collect.linux.cron",
      record {
        action_type = "collect.linux.cron";
        language = bash;
        description = "Read-only crontab listing.";
        tier = 0;
        read_only = true;
        required_permission = "response:tier0";
        allowed_params = [];
        script_path = some "security-languages/shell/linux/collect_cron.sh";
        rollback_available = false;
        feature_flag = none;
      },
    )
    ∷ (
      "collect.linux.ssh",
      record {
        action_type = "collect.linux.ssh";
        language = bash;
        description = "Read-only SSH auth log tail.";
        tier = 0;
        read_only = true;
        required_permission = "response:tier0";
        allowed_params = [];
        script_path = some "security-languages/shell/linux/collect_ssh.sh";
        rollback_available = false;
        feature_flag = none;
      },
    )
    ∷ (
      "collect.linux.audit",
      record {
        action_type = "collect.linux.audit";
        language = bash;
        description = "Read-only audit log tail.";
        tier = 0;
        read_only = true;
        required_permission = "response:tier0";
        allowed_params = [];
        script_path = some "security-languages/shell/linux/collect_audit.sh";
        rollback_available = false;
        feature_flag = none;
      },
    )
    ∷ (
      "scan.yara.bytes",
      record {
        action_type = "scan.yara.bytes";
        language = yara;
        description = "Scan provided bytes with approved YARA rules.";
        tier = 0;
        read_only = true;
        required_permission = "detections:read";
        allowed_params = "rule_id" ∷ "content_b64" ∷ "filename" ∷ [];
        script_path = none;
        rollback_available = false;
        feature_flag = none;
      },
    )
    ∷ (
      "hunt.blueql",
      record {
        action_type = "hunt.blueql";
        language = blueql;
        description = "Compile and execute a BlueQL hunt against provided events.";
        tier = 0;
        read_only = true;
        required_permission = "hunts:execute";
        allowed_params = "query" ∷ "dry_run" ∷ [];
        script_path = none;
        rollback_available = false;
        feature_flag = none;
      },
    )
    ∷ (
      "hunt.sql",
      record {
        action_type = "hunt.sql";
        language = sql;
        description = "Execute a registered, parameterized SQL hunt.";
        tier = 0;
        read_only = true;
        required_permission = "hunts:execute";
        allowed_params = "query_id" ∷ "params" ∷ [];
        script_path = none;
        rollback_available = false;
        feature_flag = none;
      },
    )
    ∷ (
      "policy.evaluate",
      record {
        action_type = "policy.evaluate";
        language = rego;
        description = "Evaluate a proposed response against Rego policy.";
        tier = 0;
        read_only = true;
        required_permission = "response:tier0";
        allowed_params = "proposed_action" ∷ "environment" ∷ "confidence" ∷ "auto_containment" ∷ [];
        script_path = none;
        rollback_available = false;
        feature_flag = none;
      },
    )
    ∷ (
      "isolate.host",
      record {
        action_type = "isolate.host";
        language = python;
        description = "Host isolation request. Always policy-gated.";
        tier = 2;
        read_only = false;
        required_permission = "response:tier2";
        allowed_params = "host_id" ∷ "environment" ∷ "confidence" ∷ "auto_containment" ∷ [];
        script_path = none;
        rollback_available = true;
        feature_flag = none;
      },
    )
    ∷ (
      "identity.disable_user",
      record {
        action_type = "identity.disable_user";
        language = python;
        description = "Disable a user account. Policy-gated identity action.";
        tier = 2;
        read_only = false;
        required_permission = "response:tier2";
        allowed_params = "user_id" ∷ "environment" ∷ "confidence" ∷ "auto_containment" ∷ [];
        script_path = none;
        rollback_available = false;
        feature_flag = none;
      },
    )
    ∷ (
      "identity.revoke_token",
      record {
        action_type = "identity.revoke_token";
        language = python;
        description = "Revoke an access token. Policy-gated identity action.";
        tier = 2;
        read_only = false;
        required_permission = "response:tier2";
        allowed_params = "token_id" ∷ "environment" ∷ "confidence" ∷ "auto_containment" ∷ [];
        script_path = none;
        rollback_available = false;
        feature_flag = none;
      },
    )
    ∷ (
      "network.block_ioc",
      record {
        action_type = "network.block_ioc";
        language = python;
        description = "Block an IOC. Policy-gated network action.";
        tier = 2;
        read_only = false;
        required_permission = "response:tier2";
        allowed_params = "indicator" ∷ "environment" ∷ "confidence" ∷ "auto_containment" ∷ [];
        script_path = none;
        rollback_available = false;
        feature_flag = none;
      },
    )
    ∷ []
