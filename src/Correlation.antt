-- ===== src/Correlation.antt =====
-- The correlation of two captured runs (backend/app): which response values flow into later requests.
pub mod Model
pub mod Naming
pub mod Score
pub mod Match
pub mod Engine
pub mod Conflicts
pub mod Analysis
pub mod Classification
pub mod Graph
mod Tests
