-- ===== src/Playbook.antt =====
-- packages/playbook-sdk/blueteam_playbook/engine.py: playbooks as graphs of steps, run with retries,
-- approvals and an idempotency key. The executor is a parameter that sees the calls made before, so
-- it may answer a retry differently; the calls are part of the result. New identifiers and the clock
-- are arguments. The loop `while pending` takes fuel; Playbook/Total.antt shows that it is enough.
pub mod Defs
pub mod Run
pub mod Invariant
pub mod Steps
pub mod Total
pub mod Calls
pub mod Order
pub mod Ends
pub mod Reuse
mod Tests
