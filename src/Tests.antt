-- ===== src/Tests.antt =====
-- Runs of the model on small inputs, at which the theorems are applied.
mod Queue
mod KeySet
mod Telemetry
mod Ingest
mod Session
mod Handler
mod Secrets
mod Truncate
mod Sanitize
mod Official
mod Event
mod Recorder
mod Lifecycle
mod Feedback
mod Schema
mod Baggage
mod Adapter
