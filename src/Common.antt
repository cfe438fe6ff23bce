-- ===== src/Common.antt =====
-- The shared code of the repository (lib/common).
pub mod Text
pub mod Format
pub mod GetOpts
pub mod RefCounter
pub mod ThreadPool
pub mod PeriodicExecutor
