-- ===== src/Pairing/Swiss.antt =====
-- The Swiss (FIDE Dutch) engine, src/core/pairing/swiss.
pub mod Colors
pub mod Players
pub mod Verify
pub mod Weights
pub mod Brackets
pub mod Dutch
