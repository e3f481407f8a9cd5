-- ===== src/Game.antt =====
-- The game of the client: client/tetris/game.
pub mod Tetromino
pub mod Combo
pub mod Board
pub mod Controller
pub mod Session
mod Examples
