-- ===== src/Tests.antt =====
-- Concrete databases, runs of the definitions on them, and the theorems applied there.
mod Samples
mod Availability
mod Frames
mod Limits
mod Credentials
mod Gateway
mod Import
mod Queue
mod Outbox
mod Simulations
mod Schedule
mod Admission
