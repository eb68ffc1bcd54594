-- ===== src/TaskManager.antt =====
-- kernel/task_manager: the threads, and the queue from which a processor takes the next one.
pub mod Thread
pub mod Slice
pub mod RunQueue
pub mod WaitQueue
mod Tests
