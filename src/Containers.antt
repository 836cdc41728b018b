-- ===== src/Containers.antt =====
-- backend/app/services/container_manager.py: the one place that talks to Docker.
pub mod Value
pub mod Policy
pub mod Manager
pub mod Launch
pub mod Safety
pub mod Analysis
pub mod Trace
pub mod Lookup
mod Examples
