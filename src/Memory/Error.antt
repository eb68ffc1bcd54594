-- ===== src/Memory/Error.antt =====
-- kernel/memory_manager.rs and arch/x86_64/paging/mod.rs: the errors of the memory managers.
pub data PagingError : Type 0 where
  memory_cache_ran_out memory_cache_overflowed entry_is_not_found : PagingError
  address_is_not_aligned address_is_not_canonical size_is_not_aligned : PagingError

pub data MemoryError : Type 0 where
  not_aligned invalid_size invalid_address alloc_address_failed free_address_failed : MemoryError
  address_not_available map_address_failed internal_error entry_pool_run_out : MemoryError
  paging_error : PagingError → MemoryError
