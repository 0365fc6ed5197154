-- ===== src/Tests.antt =====
-- The tests and the witnesses: the definitions run on concrete inputs, and the theorems at inputs
-- that meet their hypotheses.
mod Data
mod Query
mod Queries
mod Answers
mod Store
mod Redis
mod Api
mod Startup
mod Shutdown
mod Sources
mod Live
mod Runs
mod Upgrade
