-- ===== src/Server.antt =====
-- The server: the rows of its database, the queue of pairs, the life of a test, the clients, the
-- administration, the smoke test worker and the sanity checks (server/).
pub mod Penta
pub mod Types
pub mod Schema
pub mod Stats
pub mod Spec
pub mod Outcomes
pub mod Lifecycle
pub mod Sanity
pub mod Queue
pub mod Clients
pub mod Admin
pub mod Views
pub mod Reports
pub mod Smoke
pub mod Books
pub mod Config
pub mod Pool
pub mod Github
pub mod Http
pub mod System
pub mod Evolution
pub mod Pairs
pub mod Samples
pub mod Tests
pub mod ServiceTests
