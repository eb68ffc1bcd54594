-- ===== src/Memory/PageOrder.antt =====
-- kernel/memory_manager/data_type.rs: `MPageOrder`, the order of a number of pages.
use methylenix.Base.{
  ℕ, ◌+◌, ◌-◌, ◌^◌, ◌≤◌, ◌<◌, ◌≡◌, ap, ◌∙◌, Option, some, arith, add_usize, ◌>>=◌, ltb,
  if◌then◌else◌,
}
use native.Mathlib.Decide.{dec_lt}
use native.Mathlib.Nat.{le_trans, pow-le-pow_right}
use methylenix.Memory.Page.{page_shift}
use methylenix.Memory.Order
use methylenix.Memory.Order.{IsOrder}

unfoldable pub to_order : ℕ → ℕ
to_order page_order = add_usize page_order page_shift

unfoldable pub from_offset : ℕ → ℕ → Option ℕ
unfolding to_order
from_offset size max = do
  order ← Order.from_offset size (to_order max)
  some (Order.to_page_order order)

unfoldable pub to_offset : ℕ → ℕ
unfolding to_order
to_offset page_order = Order.to_offset (to_order page_order)

-- The order in pages of a size, for every bound: it is at most the bound, the pages of an order below
-- the bound hold the size, and no lower order of pages does.
pub record IsPageOrder (size max page_order : ℕ) : Type 0 where
  pub fits : page_order < max → size ≤ 2 ^ (page_order + page_shift)
  pub least : (k : ℕ) → k < page_order → 2 ^ (k + page_shift) < size
  pub bounded : page_order ≤ max

to_order_lem : (max : ℕ) → max ≤ 51 → to_order max ≡ max + 12
unfolding to_order
to_order_lem max h = omega arith

bound_pos : (max : ℕ) → 0 < max + 12
bound_pos max = omega arith

to_page_order-IsPageOrder :
    (size max order : ℕ)
    → IsOrder size (max + 12) order
    → IsPageOrder size max (Order.to_page_order order)
unfolding Order.to_page_order
to_page_order-IsPageOrder size max order is = elim (dec_lt 12 order) [
  | yes p ↦
      let e : (if ltb 12 order then order - 12 else 0) ≡ order - 12 = ground arith in
      let back : order - 12 + 12 ≡ order = omega arith in
      rw e (record {
        fits = λ q. rw back (is.fits (omega arith));
        least = λ k q. is.least (k + 12) (omega arith);
        bounded = omega (arith, is.bounded);
      })
  | no p ↦
      let e : (if ltb 12 order then order - 12 else 0) ≡ 0 = ground arith in
      rw e (record {
        fits = λ q.
            le_trans (is.fits (omega arith))
              (pow-le-pow_right {n = 2} (omega arith) {i = order} {j = 12} (omega arith));
        least = λ k q. absurd (omega arith);
        bounded = omega arith;
      })
]

-- For every size up to 2 ^ 63 and every bound up to 51, `from_offset` returns the least
-- order of pages whose size holds `size`, or the bound if that is less.
pub from_offset-IsPageOrder :
    (size max : ℕ)
    → size ≤ 2 ^ 63
    → max ≤ 51
    → (r : ℕ) × (from_offset size max ≡ some r) × IsPageOrder size max r
unfolding from_offset
from_offset-IsPageOrder size max small h =
    let e : to_order max ≡ max + 12 = to_order_lem max h in
    let (r, run, is) = Order.from_offset-IsOrder size (max + 12) small (bound_pos max) in
    let run' : Order.from_offset size (to_order max) ≡ some r =
      ap (λ n. Order.from_offset size n) e ∙ run in
    (Order.to_page_order r, rw run', to_page_order-IsPageOrder size max r is)
