-- ===== src/Tests.antt =====
-- The theorems at concrete inputs, and runs of the models.
mod Tokens
mod Records
mod Lines
mod Commands
mod Events
mod Responses
mod Daemon
mod Sap
mod Requests
mod Unsolicited
