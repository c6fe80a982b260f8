-- ===== src/Tests.antt =====
-- Tests: the theorems about the code, applied to concrete inputs.
mod Clocks
mod Tables
mod Pairs
mod Amounts
mod Access
mod Statuses
mod Results
mod Engine
mod Games
mod Online
mod Queues
