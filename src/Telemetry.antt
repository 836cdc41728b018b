-- ===== src/Telemetry.antt =====
-- backend/app/services/telemetry: reading sensor logs and storing their events.
pub mod Text
pub mod Normalize
pub mod LocalSource
pub mod Collector
