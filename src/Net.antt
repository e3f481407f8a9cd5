-- ===== src/Net.antt =====
-- The network side of the client: client/tetris/net.
pub mod Structs
pub mod Registry
pub mod Builder
pub mod Manager
pub mod Worker
mod Examples
