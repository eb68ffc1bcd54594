-- ===== src/Memory/Tests.antt =====
-- The orders of memory on a concrete input.
use methylenix.Base.{◌≡◌, some, arith}
use methylenix.Memory.Order
use methylenix.Memory.Pool.{PoolAllocator}

-- A pool with one free object at 64.
abbrev pool : PoolAllocator
pool = record { linked_count = 1; object_size = 32; head = some 64; offset = 0 }

from_offset-to_offset_example : Order.from_offset (Order.to_offset 12) 21 ≡ some 12
from_offset-to_offset_example = Order.from_offset-to_offset 12 21 (omega arith) (omega arith)
