-- ===== src/Kernel/Task.antt =====
-- The kernel's threads (kernel/src/task).
pub mod WaitQueue
