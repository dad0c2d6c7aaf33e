-- ===== src/Executors.antt =====
-- executors: the task, the executor's event loop, and their properties.
pub mod Task
pub mod TaskList
pub mod Default
pub mod Events
pub mod Steps
pub mod Closed
pub mod Limits
pub mod Submit
pub mod CancelNow
pub mod Races
pub mod Shutdown
pub mod Tests
pub mod Stalls
