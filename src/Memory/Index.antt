-- ===== src/Memory/Index.antt =====
-- kernel/memory_manager/data_type.rs: `MIndex`, the number of a page, and its `Step` operations.
use methylenix.Base.{
  ℕ, ◌+◌, ◌-◌, ◌*◌, ◌/◌, ◌%◌, ◌^◌, ◌≤◌, ◌<◌, ◌≡◌, Option, none, some, arith, leb, ltb,
  if◌then◌else◌, usize_mod,
}
use methylenix.Memory.Page.{page_shift, page_size}
use methylenix.Memory.Size.{page_align_up}

unfoldable pub from_offset : ℕ → ℕ
from_offset offset = offset / 2 ^ page_shift

unfoldable pub to_offset : ℕ → ℕ
to_offset index = index * 2 ^ page_shift % usize_mod

-- `Step::steps_between`; the subtraction cannot overflow in its branch.
unfoldable pub steps_between : ℕ → ℕ → ℕ × Option ℕ
steps_between start end = if leb start end then (end - start, some (end - start)) else (0, none)

-- `Step::forward_checked`
unfoldable pub forward_checked : ℕ → ℕ → Option ℕ
forward_checked start count = if ltb (start + count) usize_mod then some (start + count) else none

-- `Step::backward_checked`
unfoldable pub backward_checked : ℕ → ℕ → Option ℕ
backward_checked start count = if leb count start then some (start - count) else none

-- The page of a byte that does not stand in the last page starts at or before it, less than a page away;
-- and a page-aligned size gives the number of pages that hold it.
pub from_offset_bounds :
    (offset : ℕ)
    → offset ≤ usize_mod - page_size
    → (to_offset (from_offset offset) ≤ offset)
      × (offset < to_offset (from_offset offset) + page_size)
      × (to_offset (from_offset (page_align_up offset)) ≡ page_align_up offset)
unfolding from_offset to_offset page_align_up
from_offset_bounds offset h = (omega arith, omega arith, ground arith)

-- The `Step` operations agree: going forward by the steps between two indices leads from one to the
-- other, and back again.
pub forward_checked-steps_between :
    (start end : ℕ)
    → start ≤ end
    → end < usize_mod
    → (steps_between start end ≡ (end - start, some (end - start)))
      × (forward_checked start (steps_between start end).0 ≡ some end)
      × (backward_checked end (steps_between start end).0 ≡ some start)
unfolding steps_between forward_checked backward_checked
forward_checked-steps_between start end h k = ground arith
