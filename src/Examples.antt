-- ===== src/Examples.antt =====
-- The theorems applied at concrete inputs.
mod Queues
mod Broadcast
mod Buffers
mod Overwriting
mod Events
mod Segments
mod Messages
mod Ballots
mod Sharing
mod Replication
mod Readers
