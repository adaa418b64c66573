-- ===== src/Audit/Tests.antt =====
-- A table of three records, and the theorems at it.
use Prim.Native.String.{◌++◌ as text_append}
use blue_team_os.Prelude.{
  inl, inr, Bool-cases, text_differs, if◌then◌else◌, ℕ, ◌≡◌, ◌≢◌, refl, String, true, false, ◌==◌,
  none, some, List, [], ◌∷◌, arith,
}
use blue_team_os.Value.{text}
use blue_team_os.Audit.{
  Payload, AuditLog, AuditRequest, genesis_hash, by_sequence, payload_of, chained_hash, check_rows,
  verify_audit_chain,
}
use blue_team_os.Audit.Order.{IsAscending}
use blue_team_os.Audit.Written.{write_all, verify_audit_chain-write_all}
use blue_team_os.Audit.Tamper.{verify_audit_chain-changed, verify_audit_chain-removed}

-- A digest that keeps its text, and is never empty.
abbrev digest : String → String
digest s = if s == "" then "empty" else s

abbrev json : Payload → String
json p = p.action

digest_filled : (s : String) → (digest s == "") ≡ false
digest_filled s = elim (Bool-cases (s == "")) [ inl e ↦ rw e refl | inr e ↦ rw e e ]

abbrev request : String → AuditRequest
request action = record {
  tenant_id = some "ten_a";
  actor_type = "user";
  actor_id = "usr_1";
  request_id = "req_1";
  action = action;
  target_type = "incident";
  target_id = none;
  reason = none;
  policy_decision = none;
  approval_status = none;
  before_state = none;
  after_state = some (("status", text "closed") ∷ []);
  result = "success";
  new_id = "aud_1";
  utcnow = 0;
}

abbrev requests : List AuditRequest
requests = request "c" ∷ (request "b" ∷ (request "a" ∷ []))

verify_audit_chain-write_all_example :
    verify_audit_chain digest json (write_all digest json digest_filled requests) ≡ (true, "ok")
verify_audit_chain-write_all_example =
    verify_audit_chain-write_all digest json digest_filled requests

abbrev row_of : ℕ → String → String → String → AuditLog
row_of sequence action previous own = record {
  id = "aud_1";
  previous_hash = previous;
  record_hash = own;
  timestamp = 0;
  payload = payload_of sequence (request action);
}

abbrev first_row : AuditLog
first_row = row_of 1 "a" genesis_hash (digest (text_append genesis_hash "|a"))

abbrev second_row : AuditLog
second_row = row_of 2 "b" first_row.record_hash (digest (text_append first_row.record_hash "|b"))

abbrev third_row : AuditLog
third_row = row_of 3 "c" second_row.record_hash (digest (text_append second_row.record_hash "|c"))

three_valid :
    (verify_audit_chain digest json (first_row ∷ (second_row ∷ (third_row ∷ [])))).0 ≡ true
unfolding verify_audit_chain by_sequence payload_of check_rows chained_hash
three_valid = refl

three-IsAscending : IsAscending (first_row ∷ (second_row ∷ (third_row ∷ [])))
unfolding payload_of
three-IsAscending = ((omega arith, (omega arith, tt)), ((omega arith, tt), (tt, tt)))

second_differs : second_row.record_hash ≢ second_row.previous_hash
second_differs e = text_differs _ _ refl e

verify_audit_chain-removed_example :
    (verify_audit_chain digest json (first_row ∷ (third_row ∷ []))).0 ≡ false
verify_audit_chain-removed_example =
    verify_audit_chain-removed digest json (first_row ∷ []) [] second_row third_row
      three-IsAscending three_valid second_differs

-- The second row with another action and the hash of its new contents.
abbrev forged_row : AuditLog
forged_row = row_of 2 "x" first_row.record_hash (digest (text_append first_row.record_hash "|x"))

forged_differs : forged_row.record_hash ≢ second_row.record_hash
forged_differs e = text_differs _ _ refl e

verify_audit_chain-changed_example :
    (verify_audit_chain digest json (first_row ∷ (forged_row ∷ (third_row ∷ [])))).0 ≡ false
unfolding payload_of
verify_audit_chain-changed_example =
    verify_audit_chain-changed digest json (first_row ∷ []) [] second_row forged_row third_row
      three-IsAscending three_valid refl (λ same. forged_differs same.0)
