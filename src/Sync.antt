-- ===== src/Sync.antt =====
-- client/src/sync: what the client keeps in step with the session.
pub mod Puzzle
pub mod Player
pub mod Combat
pub mod Cutscene
