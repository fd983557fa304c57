-- ===== src/Tests.antt =====
-- The theorems at concrete inputs.
mod World
mod Data
mod Ordering
mod Messages
mod Streams
mod Runs
mod Connections
mod Transports
mod Mixnets
mod Polls
mod Whole
