-- ===== src/Telemetry/Normalize.antt =====
-- backend/app/services/telemetry/normalize.py: the record of any sensor as one common event.
pub mod Json
pub mod Sensor
pub mod Endpoint
pub mod Parsers
pub mod Dionaea
pub mod Event
pub mod Clean
pub mod Usable
pub mod Fingerprint
pub mod Brackets
pub mod Timestamps
mod Examples
