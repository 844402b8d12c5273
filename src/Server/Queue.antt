-- ===== src/Server/Queue.antt =====
-- server/queue.cpp: the queue of pairs. A pair is pending, leased to a client, completed or
-- discarded.
pub mod Claim
pub mod Submit
pub mod Leases
