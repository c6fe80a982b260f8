-- ===== src/Play.antt =====
-- The online games, src/modules/play.
pub mod Timers
pub mod Rows
pub mod Store
pub mod Service
pub mod Moves
pub mod Actions
pub mod History
pub mod Claims
pub mod Matchmaking
pub mod Ends
