-- ===== src/Examples.antt =====
-- Runs at concrete inputs.
mod Rings
mod Wire
mod Parser
mod Managers
mod Accounts
mod Gates
mod Routes
mod Sessions
mod Texts
mod Threads
mod Logics
mod Openings
mod Servers
mod Chains
mod Requests
mod Answers
