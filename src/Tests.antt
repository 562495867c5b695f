-- ===== src/Tests.antt =====
-- Runs of the model at concrete inputs.
mod Requests
mod Names
mod Streams
mod Routes
mod Values
mod Tokens
mod Models
mod Server
mod Forwarding
mod Launchd
mod Upkeep
mod Pickers
mod Credentials
