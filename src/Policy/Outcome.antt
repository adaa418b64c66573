-- ===== src/Policy/Outcome.antt =====
-- The decisions that policies return (PolicyDecision, Decision), and Python's names for them.
use blue_team_os.Prelude.{String, Option, none, some, ◌==◌, if◌then◌else◌}

pub data Decision : Type 0 where
  allow deny require_approval : Decision

-- The literal that a text is, if any.
unfoldable pub decision_of : String → Option Decision
decision_of s =
    if s == "ALLOW"
    then some allow
    else if s == "DENY"
    then some deny
    else if s == "REQUIRE_APPROVAL"
    then some require_approval
    else none
