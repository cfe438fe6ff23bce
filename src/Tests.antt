-- ===== src/Tests.antt =====
-- Runs of the modelled code on small inputs, and the theorems at inputs that meet their hypotheses.
mod Path
mod Text
mod Format
mod GetOpts
mod Ipc
mod QueryBuilder
mod Organizer
mod Requests
mod Written
mod RefCounter
mod Http
mod Manager
mod ThreadPool
mod Strings
mod PeriodicExecutor
