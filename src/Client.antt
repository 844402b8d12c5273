-- ===== src/Client.antt =====
-- The client: its admission to the fleet, the command line of fastchess, the protocol's statuses
-- and the loop of a slot (client/).
pub mod Topology
pub mod Config
pub mod Api
pub mod Poll
pub mod Startup
pub mod Results
pub mod Pgn
pub mod Runner
pub mod Tests
pub mod Admitted
