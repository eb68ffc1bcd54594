-- ===== src/Sync.antt =====
-- kernel/sync: the locks. Each atomic access is one step, and the accesses are sequentially
-- consistent. `synchronize` and the cache flushes change no state of this model.
mod Atomic
pub mod SpinLock
pub mod RwLock
pub mod Sequence
mod Tests
