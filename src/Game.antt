-- ===== src/Game.antt =====
-- client/src/game: guarded memory access and the signature scanner.
pub mod Memory
pub mod Pattern
pub mod Offsets
pub mod Cache
pub mod Float
pub mod Walk
pub mod Resolve
