-- ===== src/Ui.antt =====
-- The widgets of the client: client/tetris/ui. Drawing, fonts, images and sounds are pygame's and are
-- left out; a rectangle is the test by which a widget asks whether the mouse is in it.
pub mod Event
pub mod Toolkit
pub mod Scroll
pub mod RoomList
pub mod AdjustSound
pub mod Settings
pub mod Texts
pub mod InputBox
pub mod Button
pub mod ChatWindow
pub mod UserList
pub mod UserWindow
pub mod UserTabs
pub mod CreateRoom
pub mod FastMatching
mod Examples
mod ListExamples
