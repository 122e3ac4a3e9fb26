-- ===== src/Replication.antt =====
-- The follower's side of log shipping (replication/client.go).
pub mod Tracker
pub mod Pipeline
mod Tests
