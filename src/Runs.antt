-- ===== src/Runs.antt =====
-- The theorems applied at concrete inputs, and runs of the code.
mod Data
mod Protocol
mod Registry
mod Services
mod Session
mod Auth
mod Policy
mod Users
mod Agents
mod Proxies
mod Pollers
mod Hubs
