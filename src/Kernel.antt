-- ===== src/Kernel.antt =====
-- The kernel (kernel/src).
pub mod Inventory
pub mod Pmm
pub mod Ipc
pub mod Cap
pub mod Task
