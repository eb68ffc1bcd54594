-- ===== src/Memory.antt =====
-- kernel/memory_manager: sizes and addresses, the physical memory manager, and the pool and slab allocators.
mod Page
pub mod Size
pub mod Order
pub mod PageOrder
pub mod Index
pub mod Permission
pub mod Align
pub mod Error
pub mod Physical
pub mod Pool
pub mod Slab
mod Tests
