-- ===== src/Drift.antt =====
-- drift/drift_detector.py: compares the live state of a NAS with the one that is declared.
-- `Parsers` reads the tools' output, `Diffs` compares one resource, and `Report` is a whole run.
pub mod Json
pub mod Parsers
pub mod State
pub mod Rules
pub mod Diffs
pub mod Report
mod Tests
