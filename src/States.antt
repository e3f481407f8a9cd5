-- ===== src/States.antt =====
-- The states of the client: client/tetris/states.
pub mod Errors
pub mod Fade
pub mod Login
pub mod Lobby
pub mod Ranking
pub mod Multi
pub mod Single
mod Examples
