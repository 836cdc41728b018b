-- ===== src/Detection.antt =====
-- backend/app/services/detection_engine.py: the evaluation of detection rules over the events of a
-- window. An event type, its timestamp and what an event matches are parameters here.
pub mod Sequence
pub mod Rules
pub mod Greedy
pub mod Refinement
pub mod Window
pub mod Candidates
pub mod Incidents
mod Examples
