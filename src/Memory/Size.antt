-- ===== src/Memory/Size.antt =====
-- kernel/memory_manager/data_type.rs: `MSize`, with the addresses that bound an area.
use methylenix.Base.{
  ℕ, ◌+◌, ◌-◌, ◌*◌, ◌%◌, ◌≤◌, ◌<◌, ◌≡◌, some, arith, leb, ◌==◌, if◌then◌else◌, Panics, ◌>>◌, assert,
  add_usize, sub_usize, usize_mod,
}
use methylenix.Memory.Page.{page_size, align_down}

unfoldable pub from_address : ℕ → ℕ → Panics ℕ
from_address start_address end_address = do
  assert (leb start_address end_address)
  some (add_usize (sub_usize end_address start_address) 1)

-- `start_address += self - MSize::new(1)`
unfoldable pub to_end_address : ℕ → ℕ → ℕ
to_end_address size start_address = add_usize start_address (sub_usize size 1)

unfoldable pub page_align_up : ℕ → ℕ
page_align_up size =
    if size == 0 then size else add_usize (align_down (sub_usize size 1) page_size) page_size

-- An area of `size` bytes that does not run past the end of the address space ends at
-- `start_address + size - 1`, and its size computed from its two ends is `size` again.
pub from_address-to_end_address :
    (size start_address : ℕ)
    → 0 < size
    → size < usize_mod
    → start_address + size ≤ usize_mod
    → (to_end_address size start_address ≡ start_address + size - 1)
      × (from_address start_address (to_end_address size start_address) ≡ some size)
unfolding from_address to_end_address
from_address-to_end_address size start_address h b k = ground arith

-- `page_align_up` is the least multiple of the page size that is not below the size, for every size
-- whose rounding fits in a word.
pub page_align_up_least :
    (size : ℕ)
    → size ≤ usize_mod - page_size
    → (page_align_up size % page_size ≡ 0)
      × (size ≤ page_align_up size)
      × ((n : ℕ) → size ≤ n * page_size → page_align_up size ≤ n * page_size)
unfolding page_align_up
page_align_up_least size h = (ground arith, ground arith, λ n k. ground arith)
