-- ===== src/Events.antt =====
-- internal/events: normalisation, field limits and validation of events.
pub mod Payload
pub mod Fields
pub mod UserAgent
pub mod Languages
pub mod Metadata
pub mod Decode
