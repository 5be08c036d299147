-- ===== src/TaskManager.antt =====
-- task_manager/src and shared/src/task_manager: how a job is checked, split into tasks, and reduced.
pub mod JobData
pub mod Splitter
pub mod Combinations
pub mod Reducer
pub mod Job
pub mod Process
pub mod Events
pub mod Lifecycle
pub mod Results
pub mod Splitting
pub mod Reducing
mod Tests
mod JobTests
