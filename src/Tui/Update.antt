-- ===== src/Tui/Update.antt =====
-- `update` of src/tui/app.rs: one function for each of its arms. An arm that writes nothing but
-- the view is a function of the view, with the parts of the state it reads as arguments.
pub mod Instances
pub mod Accounts
pub mod Launches
pub mod Java
pub mod Loaders
pub mod LoaderInstalls
pub mod Mods
pub mod ModInstalls
pub mod ModLists
pub mod Cf
pub mod Modpacks
pub mod Packs
pub mod PackLists
pub mod Dispatch
pub mod ModDispatch
pub mod Step
