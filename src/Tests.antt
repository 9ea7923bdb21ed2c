-- ===== src/Tests.antt =====
-- Runs at concrete inputs: one for each theorem with hypotheses.
mod Requests
mod Forms
mod Offline
mod Pages
mod Names
mod Jobs
mod Tasks
mod Limits
mod Queries
mod Rights
mod Keys
mod Visits
