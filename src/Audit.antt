-- ===== src/Audit.antt =====
-- services/api/app/services/audit.py and packages/python-common/blueteam_common/hashing.py: the chain
-- of audit records. The table is the list of its rows in the order of insertion; `order_by(sequence)` is
-- a sort. SHA-256 and json.dumps are parameters.
pub mod Order
pub mod Chain
pub mod Written
pub mod Tamper
mod Tests
use Prim.Native.String.{◌++◌ as text_append}
use blue_team_os.Prelude.{
  ℕ, ◌+◌, String, Bool, true, false, ◌||◌, not, Option, none, some, List, [], ◌∷◌, ◌++◌, ◌==◌, leb,
  if◌then◌else◌,
}
use blue_team_os.Value.{Doc}

pub record Payload : Type 0 where
  pub sequence : ℕ
  pub tenant_id : Option String
  pub actor_type : String
  pub actor_id : String
  pub request_id : String
  pub action : String
  pub target_type : String
  pub target_id : Option String
  pub reason : Option String
  pub policy_decision : Option String
  pub approval_status : Option String
  pub before_state : Doc
  pub after_state : Doc
  pub result : String

pub record AuditLog : Type 0 where
  pub id : String
  pub previous_hash : String
  pub record_hash : String
  pub timestamp : ℕ
  pub payload : Payload

-- The arguments of write_audit, with the identifier and the time that it takes.
pub record AuditRequest : Type 0 where
  pub tenant_id : Option String
  pub actor_type : String
  pub actor_id : String
  pub request_id : String
  pub action : String
  pub target_type : String
  pub target_id : Option String
  pub reason : Option String
  pub policy_decision : Option String
  pub approval_status : Option String
  pub before_state : Option Doc
  pub after_state : Option Doc
  pub result : String
  pub new_id : String
  pub utcnow : ℕ

abbrev pub genesis_hash : String
genesis_hash = "0000000000000000000000000000000000000000000000000000000000000000"

-- func.max(AuditLog.sequence)
abbrev pub max_sequence : List AuditLog → Option ℕ
max_sequence [] = none
max_sequence (row ∷ rows) = elim (max_sequence rows) [
  | none ↦ some row.payload.sequence
  | some n ↦ if leb n row.payload.sequence then some row.payload.sequence else some n
]

unfoldable pub next_sequence : List AuditLog → ℕ
next_sequence rows = elim (max_sequence rows) [ none ↦ 1 | some current ↦ current + 1 ]

abbrev pub place : AuditLog → List AuditLog → List AuditLog
place row [] = row ∷ []
place row (other ∷ rows) =
    let later = place row rows in
    if leb row.payload.sequence other.payload.sequence then row ∷ other ∷ rows else other ∷ later

-- order_by(AuditLog.sequence.asc())
unfoldable pub by_sequence : List AuditLog → List AuditLog
by_sequence [] = []
by_sequence (row ∷ rows) = place row (by_sequence rows)

abbrev pub last_hash : String → List AuditLog → String
last_hash previous [] = previous
last_hash previous (row ∷ rows) = last_hash row.record_hash rows

-- row or GENESIS_HASH, of the row with the greatest sequence.
unfoldable pub latest_hash : List AuditLog → String
latest_hash rows =
    let row = last_hash "" (by_sequence rows) in if row == "" then genesis_hash else row

abbrev or_empty : Option Doc → Doc
or_empty none = []
or_empty (some d) = d

unfoldable pub payload_of : ℕ → AuditRequest → Payload
payload_of sequence q = record {
  sequence = sequence;
  tenant_id = q.tenant_id;
  actor_type = q.actor_type;
  actor_id = q.actor_id;
  request_id = q.request_id;
  action = q.action;
  target_type = q.target_type;
  target_id = q.target_id;
  reason = q.reason;
  policy_decision = q.policy_decision;
  approval_status = q.approval_status;
  before_state = or_empty q.before_state;
  after_state = or_empty q.after_state;
  result = q.result;
}

module _ (sha256_hex : String → String) (canonical_json : Payload → String) where
  unfoldable pub chained_hash : String → Payload → String
  chained_hash previous_hash payload =
      sha256_hex (text_append previous_hash (text_append "|" (canonical_json payload)))

  abbrev pub record_of : List AuditLog → AuditRequest → AuditLog
  record_of rows q = record {
    id = q.new_id;
    previous_hash = latest_hash rows;
    record_hash = chained_hash (latest_hash rows) (payload_of (next_sequence rows) q);
    timestamp = q.utcnow;
    payload = payload_of (next_sequence rows) q;
  }

  unfoldable pub write_audit : AuditRequest → List AuditLog → List AuditLog
  write_audit q rows = rows ++ record_of rows q ∷ []

  -- The loop of verify_audit_chain, over the rows in order; the message leaves out the sequence.
  unfoldable pub check_rows : String → List AuditLog → Bool × String
  check_rows previous [] = (true, "ok")
  check_rows previous (row ∷ rows) =
      let rest = check_rows row.record_hash rows in
      if not (row.previous_hash == previous)
        || not (row.record_hash == chained_hash previous row.payload)
      then (false, "audit chain break")
      else rest

  unfoldable pub verify_audit_chain : List AuditLog → Bool × String
  verify_audit_chain rows = check_rows genesis_hash (by_sequence rows)
