-- ===== src/Fabric.antt =====
-- packages/event-fabric/blueteam_fabric: topics, envelopes, the in-process fabric and the pipeline
-- from raw messages to normalized events. Locks are left out: every method holds the lock for its
-- whole body, so calls do not interleave. Pydantic's model_dump and model_validate, the normalizer, new
-- identifiers and the clock are parameters.
pub mod Envelope
pub mod Memory
pub mod Pipeline
pub mod Fresh
pub mod Drain
pub mod Tenants
pub mod Retry
mod Tests
