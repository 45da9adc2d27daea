-- ===== src/Tests.antt =====
-- The program of app/ run on small worlds: a JSON library, a libilm and a stack that can be
-- computed with, and each theorem at work in one of them.
pub mod World
pub mod Runs
pub mod Pieces
pub mod Running
pub mod Examples
pub mod Changes
pub mod Messages
pub mod Endings
pub mod Progress
pub mod Scenes
pub mod Opening
