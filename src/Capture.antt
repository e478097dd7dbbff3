-- ===== src/Capture.antt =====
-- internal/capture: which stored memories a new one contradicts, and which turns are captured.
pub mod Contradiction
pub mod ConflictDetector
pub mod Quality
mod Tests
