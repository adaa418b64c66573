-- ===== src/Detection.antt =====
-- packages/detection-sdk/blueteam_detection: the window of events, the context that a rule is given, and
-- the registry of rules; detections/python/identity: rules over authentication events. New identifiers,
-- the clock and the text of a bucketed time are parameters.
pub mod Context
pub mod Rules
pub mod Failures
pub mod Accounts
pub mod Endpoint
pub mod Network
pub mod Catalog
pub mod Window
pub mod Grounds
pub mod Sound
pub mod Seen
pub mod Findings
pub mod Total
pub mod Complete
pub mod Sample
mod Tests
