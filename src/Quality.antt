-- ===== src/Quality.antt =====
-- packages/quality-engine/blueteam_quality/engine.py and packages/schemas/blueteam_schemas/quality.py:
-- the quality index. Points are integers.
pub mod Points
pub mod Index
pub mod Bounds
mod Tests
