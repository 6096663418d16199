-- ===== src/Libzero.antt =====
-- libzero: the freestanding support library of the user-space services (libzero/src).
pub mod Error
pub mod Resource
pub mod Lease
pub mod Accounting
pub mod LeaseEngine
pub mod Time
mod Samples
mod Tests
