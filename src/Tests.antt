-- ===== src/Tests.antt =====
-- Concrete inputs at which the theorems apply.
mod Start
mod Handles
mod Clients
mod Calls
mod Subscriptions
mod Lifecycles
mod Runs
mod Sessions
mod Harness
mod Asks
mod Details
mod Discovery
mod Texts
mod Params
mod Libraries
mod Examples
