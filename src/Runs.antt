-- ===== src/Runs.antt =====
-- Two recorded runs of a collection (backend/app/services): how they are aligned.
pub mod Signature
pub mod Aligner
pub mod EditDistance
mod Tests
