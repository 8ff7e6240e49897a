-- ===== src/Tui.antt =====
-- src/tui/app.rs: the state of the terminal interface and the function that steps it. A struct
-- variant of the source's enum of views is a record here, and its enum of actions is one data
-- type for each of the sections its comments divide it into.
pub mod View
pub mod Effect
pub mod State
pub mod PackAction
pub mod Action
pub mod Update
mod Bounds
mod Guards
mod Runs
mod Busy
mod Switch
mod Scroll
mod Quit
mod ActiveAccount
mod Marks
mod Tests
pub mod Keys
mod Escape
mod KeyGuards
mod KeyNames
mod KeyTests
