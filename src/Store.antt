-- ===== src/Store.antt =====
-- The tables of services/api/app/models/telemetry.py and ops.py, and the calls of the services on them.
pub mod Tables
pub mod Action
pub mod Triple
