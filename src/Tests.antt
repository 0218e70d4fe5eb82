-- ===== src/Tests.antt =====
-- Runs at fixed inputs, and the theorems at inputs that meet their hypotheses.
mod Samples
mod Texts
mod Callers
mod Fixtures
mod Handlers
mod Requests
mod Channels
mod Replies
mod Scenario
mod Runs
mod Rooms
mod Streams
mod Locks
mod Wrapped
mod Setup
mod Asked
mod Return
mod Flow
