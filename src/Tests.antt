-- ===== src/Tests.antt =====
-- Runs on concrete inputs: the theorems applied to a small deployment.
mod Fixtures
mod Refresh
mod Code
mod Device
mod Tokens
mod TokenExchange
mod Par
mod Sessions
mod Stores
mod Vocabulary
mod Agents
