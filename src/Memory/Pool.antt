-- ===== src/Memory/Pool.antt =====
-- kernel/memory_manager/slab_allocator/pool_allocator.rs: a stack of free objects, linked through
-- their own memory. The store gives the `next` word of the `FreeList` at an address; the size and
-- the alignment of the object type are parameters, those of `FreeList` are 8.
pub mod Stack
pub mod Grow
use methylenix.Base.{
  ℕ, zero, suc, ◌+◌, ◌-◌, ◌/◌, ◌%◌, ◌^◌, ◌<◌, ◌≤◌, ◌≡◌, Bool, true, false, not, Option, none, some,
  ◌==◌, if◌then◌else◌, is_some, Panics, ◌>>=◌, ◌>>◌, assert, add_usize, sub_usize, ltb, usize_mod,
}

abbrev pub Ptr : Type 0
Ptr = ℕ

-- What `size_of::<T>()` and `align_of::<T>()` say.
pub record ObjectType : Type 0 where
  pub size : ℕ
  pub align : ℕ

pub record PoolAllocator : Type 0 where
  pub linked_count : ℕ
  pub object_size : ℕ
  pub head : Option Ptr
  pub offset : ℕ

abbrev pub Store : Type 0
Store = Ptr → Option Ptr

abbrev pub write : Store → Ptr → Option Ptr → Store
write s p v q = if q == p then v else s q

-- `size_of` and `align_of` of `FreeList`; `x & (8 - 1)` is `x % 8`.
abbrev pub free_list_size : ℕ
free_list_size = 8

abbrev pub object_size_of : ObjectType → ℕ
object_size_of t = if ltb t.size t.align then t.align else t.size

abbrev pub offset_of : ObjectType → ℕ
offset_of t =
    let object_size = object_size_of t in
    if not (object_size % 8 == 0) then 8 - object_size % 8 else 0

-- `size_check`, evaluated at compile time
unfoldable pub size_check : ObjectType → Panics (Unit {0})
size_check t = assert (not (ltb (object_size_of t) (free_list_size + offset_of t)))

unfoldable pub new : ObjectType → Panics PoolAllocator
unfolding size_check
new t = do
  size_check t
  some (record {
    linked_count = 0;
    object_size = object_size_of t;
    offset = offset_of t;
    head = none;
  })

-- `NonNull::new`
abbrev pub non_null : Ptr → Option Ptr
non_null p = if p == 0 then none else some p

-- The result is `none` for `Err(())`.
unfoldable pub alloc_ptr : PoolAllocator → Store → Panics (Option Ptr × PoolAllocator)
alloc_ptr a s = if a.linked_count == 0 then some (none, a) else elim a.head [
  | none ↦ none
  | some e ↦ some (
    some (sub_usize e a.offset),
    record a { head = s e; linked_count = sub_usize a.linked_count 1 },
  )
]

unfoldable pub free_ptr : PoolAllocator → Ptr → Store → Panics (PoolAllocator × Store)
free_ptr a target s = do
  assert (ltb a.linked_count (usize_mod - 1))
  let e = add_usize target a.offset
  assert (is_some (non_null e))
  some (record a { head = non_null e; linked_count = add_usize a.linked_count 1 }, write s e a.head)

-- The loop of `add_pool`: the rounds left, and the address.
unfoldable pub add_objects : ℕ → PoolAllocator → Ptr → Store → Panics (PoolAllocator × Store)
unfolding free_ptr
add_objects zero a p s = some (a, s)
add_objects (suc n) a p s = do
  (a', s') ← free_ptr a p s
  add_objects n a' (add_usize p a.object_size) s'

-- `pool_address & (align - 1)`, with `align` a power of two
unfoldable pub add_pool :
    ObjectType → PoolAllocator → Ptr → ℕ → Store → Panics (PoolAllocator × Store)
unfolding add_objects
add_pool t a pool_address pool_size s =
    let misaligned = pool_address % t.align in
    let padding = if misaligned == 0 then 0 else t.align - misaligned in
    let size = sub_usize pool_size padding in
    add_objects (size / a.object_size) a (add_usize pool_address padding) s
