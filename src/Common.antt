-- ===== src/Common.antt =====
-- What the server and the client share (common/).
pub mod Process
pub mod Tests
