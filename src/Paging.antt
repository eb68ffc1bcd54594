-- ===== src/Paging.antt =====
-- arch/x86_64/paging: the four levels of page tables.
pub mod Entry
pub mod State
pub mod Target
pub mod Manager
pub mod Walk
pub mod Tree
pub mod Create
pub mod Make
pub mod Reach
pub mod Levels
pub mod Associate
pub mod Area
pub mod Failure
pub mod Lookup
pub mod Cleanup
pub mod Fade
pub mod Emptied
pub mod Page
pub mod Cleaned
pub mod Tidy
pub mod Unassociate
mod Tests
