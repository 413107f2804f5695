-- ===== src/Tests.antt =====
-- Each theorem that has hypotheses at a concrete input.
mod Network
mod Messaging
mod Threads
mod Buffers
mod Storage
mod Groups
mod Pools
mod Accounts
mod Timers
mod Requests
mod Json
mod Messages
mod Servers
mod Handlers
mod Statements
