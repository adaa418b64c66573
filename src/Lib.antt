-- ===== src/Lib.antt =====
-- Blue Team OS: the parts of the platform that decide what may run, who may do it, and what is recorded.
--
-- The program. A FastAPI service (services/api) serves security teams of many tenants. Telemetry enters
-- through the event fabric (packages/event-fabric), is normalized to canonical events and handed to
-- detections. Analysts and automation respond through playbooks (packages/playbook-sdk), which run
-- graphs of steps, and through the execution broker (packages/execution-broker), the only place that
-- starts a process. The broker asks two policies, the tiers of packages/playbook-sdk and the Rego
-- subset of packages/rego-engine. Requests are bound to a tenant and its roles by services/api, and
-- what they do is written to a chain of audit records. A quality index scores the platform by its
-- evidence.
--
-- The files.
--   Prelude      Boolean tests, lists, texts and dictionaries with text keys.
--   Errors       the exceptions of packages/python-common/blueteam_common/errors.py, and results.
--   Value        dict[str, Any] payloads, and bool(), int(), float() and str() on them.
--   Policy       packages/playbook-sdk/blueteam_playbook/policy.py; Policy/Rego is
--                packages/rego-engine/blueteam_rego/engine.py.
--   Broker       packages/execution-broker/blueteam_broker: submit is ExecutionBroker.submit, with
--                authorize for its checks and act_on for what follows; Broker/Execute is _execute,
--                _plan_or_run_script and _safe_command, whose commands are part of the result;
--                Broker/Registry the registered actions.
--   Access       services/api/app/domain/permissions.py (Access/Roles) and
--                services/api/app/services/auth.py (Access/Auth).
--   Audit        services/api/app/services/audit.py: write_audit and verify_audit_chain.
--   Event        packages/schemas/blueteam_schemas/events.py.
--   Detection    packages/detection-sdk/blueteam_detection (Detection/Context) and the rules of
--                detections/python: identity (Detection/Failures, Detection/Accounts), endpoint,
--                network and scheduled, what they share (Detection/Rules) and catalog.py.
--   Store        services/api/app/models: rows, the database, and actions on it that return or raise.
--   Evidence     services/api/app/services/evidence.py.
--   Suppression  services/api/app/services/suppression.py.
--   Findings     services/api/app/services/detection.py, with load_window of ingestion.py: what the
--                registry of Detection finds is stored with the evidence of its events.
--   Incidents    services/api/app/services/incidents.py, but for persist_storylines_and_incidents.
--   Correlation  packages/correlation/blueteam_correlation: the chains and correlate of engine.py, and
--                rules.py.
--   Fabric       packages/event-fabric/blueteam_fabric: Envelope, Memory (InMemoryFabric) and Pipeline
--                (EventPipeline.ingest_raw, _consume_all, drain_raw).
--   Quality      packages/quality-engine/blueteam_quality/engine.py and
--                packages/schemas/blueteam_schemas/quality.py: compute_quality_index.
--   Blueql       packages/blueql/blueteam_blueql/engine.py: eval_pred is _eval_pred on a parsed
--                predicate, with compare and field_value; Blueql/Sequence has _execute_sequence.
--   Playbook     packages/playbook-sdk/blueteam_playbook/engine.py: Playbook/Run has
--                PlaybookEngine.run as execute (the loops), conclude (the status) and store, and approve.
-- The other files under a component prove what their first line says; Tests holds runs at concrete
-- inputs.
--
-- State and effects. Methods that change an object take it and give it back beside what they return or
-- raise. Database tables are lists of rows. Each call of an executor, and each process that the broker
-- starts, is recorded in the result. Exceptions are values of Errors.
--
-- Bounds and fuel. Numbers are natural numbers or integers without bound, as in Python; finite
-- floats are their millionths, the infinities and the nan stand apart. Times are microseconds from
-- 1970 on; whether a time has a zone is part of an event and of the queries of a window, while
-- correlation and BlueQL take all times to have one. The loop `while pending` of a playbook has as
-- fuel one more than the number of its steps, `_consume_all` one more than the length of the queue;
-- both always end with a result (Playbook/Total, Fabric/Drain). All other loops are recursions on a
-- list or a count.
--
-- Not modelled. Locks, since every method of the fabric holds its lock for its whole body; third-party
-- code (SHA-256, JSON, JWT, password hashes, pydantic's model_dump, processes, an OPA binary), which is
-- a parameter, with what the code relies on as a hypothesis; the text of some error messages, where a comment says so. The incidents of
-- storylines, ingestion, the parser of BlueQL, the entity graph, adapters, stores and the HTTP routes are not here.
pub mod Prelude
pub mod Errors
pub mod Value
pub mod Policy
pub mod Broker
pub mod Access
pub mod Audit
pub mod Event
pub mod Detection
pub mod Fabric
pub mod Store
pub mod Evidence
pub mod Suppression
pub mod Findings
pub mod Incidents
pub mod Correlation
pub mod Blueql
pub mod Playbook
pub mod Quality
