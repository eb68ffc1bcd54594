-- ===== src/Memory/Align.antt =====
-- kernel/memory_manager/physical_memory_manager.rs: the alignment of an area that is reserved, and
-- of one that is allocated from.
use methylenix.Base.{
  ℕ, ◌+◌, ◌-◌, ◌/◌, ◌%◌, ◌≤◌, ◌<◌, ◌≡◌, ◌∙◌, arith, leb, ◌==◌, if◌then◌else◌, Panics, ◌>>◌, assert,
  some, Returns, add_usize, sub_usize, usize_mod, zero, suc, true, false, Bool-cases, inl, inr,
  leb→le, not_leb→lt,
}
use native.Mathlib.Nat.{div-add-mod', mod-lt, mul-mod_left, mul-add-mod_self_right, mod_self}
use methylenix.Memory.Page.{align_down}
use methylenix.Memory.Order.{to_offset, to_offset_bounds}

unfoldable pub align_address_and_size : ℕ → ℕ → ℕ → ℕ × ℕ
align_address_and_size address size align_order =
    let align_size = to_offset align_order in
    let aligned_address = align_down address align_size in
    let spill = sub_usize (add_usize size (sub_usize address aligned_address)) 1 in
    (aligned_address, add_usize (align_down spill align_size) align_size)

unfoldable pub align_address_and_available_size : ℕ → ℕ → ℕ → Panics (ℕ × ℕ)
align_address_and_available_size address size align_order =
    if address == 0 then some (0, size) else do
      let align_size = to_offset align_order
      let aligned_address = add_usize (align_down (sub_usize address 1) align_size) align_size
      let skipped = sub_usize aligned_address address
      assert (leb address aligned_address)
      if leb skipped size
          then some (aligned_address, sub_usize size skipped)
          else some (aligned_address, 0)

align_down_lem :
    (x m : ℕ)
    → 0 < m
    → (align_down x m ≤ x)
      × (x < align_down x m + m)
      × (align_down x m % m ≡ 0)
      × ((align_down x m + m) % m ≡ 0)
align_down_lem x m h = (
  omega (arith, div-add-mod' x m),
  omega (arith, div-add-mod' x m, mod-lt x h),
  mul-mod_left (x / m) m,
  mul-add-mod_self_right (x / m) m m ∙ mod_self m,
)

-- The area `(a', s')` covers the one of `size` bytes at `address`.
pub record Covers (address size a' s' m : ℕ) : Type 0 where
  pub starts : a' ≤ address
  pub near : address < a' + m
  pub ends : address + size ≤ a' + s'
  pub tight : a' + s' < address + size + m
  pub start_aligned : a' % m ≡ 0
  pub size_aligned : s' % m ≡ 0

-- For an order up to a page and an area that does not come near the end of the address space,
-- `align_address_and_size` gives the least aligned area that covers the given one.
pub align_address_and_size-Covers :
    (address size align_order : ℕ)
    → 0 < size
    → align_order ≤ 12
    → address + size ≤ usize_mod - 8192
    → let (a', s') = align_address_and_size address size align_order in
      Covers address size a' s' (to_offset align_order)
unfolding align_address_and_size
align_address_and_size-Covers address size align_order h k fits =
    let m = to_offset align_order in
    let (pos, small) = to_offset_bounds align_order k in
    let d = align_down address m in
    let (d1, d2, d3, _) = align_down_lem address m pos in
    let spill : ℕ = size + (address - d) - 1 in
    let (e1, e2, _, e4) = align_down_lem spill m pos in
    let q1 : sub_usize (add_usize size (sub_usize address d)) 1 ≡ spill = omega arith in
    let q2 : add_usize (align_down spill m) m ≡ align_down spill m + m = omega arith in
    rw (q1, q2)
      (record {
        starts = d1;
        near = d2;
        ends = omega arith;
        tight = omega arith;
        start_aligned = d3;
        size_aligned = e4;
      })

-- What is left of an area of `size` bytes at `address` from its first aligned address on.
pub record Available (address size m : ℕ) (r : ℕ × ℕ) : Type 0 where
  pub starts : address ≤ r.0
  pub near : r.0 < address + m
  pub aligned : r.0 % m ≡ 0
  pub left : r.1 ≡ size - (r.0 - address)

-- For an order up to a page and an area that does not come near the end of the address space,
-- `align_address_and_available_size` does not panic: it gives the first aligned address of the area
-- and the bytes left behind it, none if the area ends before it.
pub align_address_and_available_size-Available :
    (address size align_order : ℕ)
    → align_order ≤ 12
    → address + size ≤ usize_mod - 8192
    → Returns
        (Available address size (to_offset align_order))
        (align_address_and_available_size address size align_order)
unfolding align_address_and_available_size
align_address_and_available_size-Available zero size align_order k fits =
    let (pos, small) = to_offset_bounds align_order k in
    record { starts = omega arith; near = omega arith; aligned = omega arith; left = omega arith }
align_address_and_available_size-Available (suc address) size align_order k fits =
    let m = to_offset align_order in
    let (pos, small) = to_offset_bounds align_order k in
    let (d1, d2, _, d4) = align_down_lem address m pos in
    let q1 : sub_usize (suc address) 1 ≡ address = omega arith in
    let a' : ℕ = align_down address m + m in
    let q2 : add_usize (align_down address m) m ≡ a' = omega arith in
    let above : leb (suc address) a' ≡ true = ground arith in
    let q3 : sub_usize a' (suc address) ≡ a' - suc address = omega arith in
    let nz : (suc address == 0) ≡ false = ground arith in
    rw (nz, q1, q2, above, q3)
      (elim (Bool-cases (leb (a' - suc address) size)) [
        | inl roomy ↦ rw roomy (record {
          starts = omega arith;
          near = omega arith;
          aligned = d4;
          left = omega (arith, leb→le (a' - suc address) size roomy);
        })
        | inr tight ↦ rw tight (record {
          starts = omega arith;
          near = omega arith;
          aligned = d4;
          left = omega (arith, not_leb→lt (a' - suc address) size tight);
        })
      ])
