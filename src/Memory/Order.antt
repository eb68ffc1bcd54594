-- ===== src/Memory/Order.antt =====
-- kernel/memory_manager/data_type.rs: `MOrder`, the logarithm of a size.
use methylenix.Base.{
  ℕ, zero, suc, ◌+◌, ◌-◌, ◌^◌, ◌≤◌, ◌<◌, ◌≡◌, Option, none, some, arith, ltb, leb, if◌then◌else◌,
  Bool-cases, inl, inr, ap, ltb→lt,
}
use mathlib.Core.Path.{subst}
use native.Mathlib.Decide.{dec_lt}
use native.Mathlib.Nat.{mod-eq_of_lt, pow-le-pow_right, pow-suc}
use methylenix.Memory.Page.{page_shift, one_shl}

-- The loop of `from_offset`; `none` means that the fuel ran out.
unfoldable pub from_offset_loop : ℕ → ℕ → ℕ → ℕ → Option ℕ
from_offset_loop zero size max_order order = none
from_offset_loop (suc fuel) size max_order order =
    let rest = from_offset_loop fuel size max_order (order + 1) in
    if ltb (one_shl order) size
    then (if leb max_order (order + 1) then some max_order else rest)
    else some order

-- `from_offset`, given 64 rounds
unfoldable pub from_offset : ℕ → ℕ → Option ℕ
unfolding from_offset_loop
from_offset size max = from_offset_loop 64 size max 0

unfoldable pub to_offset : ℕ → ℕ
to_offset order = one_shl order

unfoldable pub to_page_order : ℕ → ℕ
to_page_order order = if ltb page_shift order then order - page_shift else 0

-- `order` is the least one whose size holds `size`, or `max` if that is less.
pub record IsOrder (size max order : ℕ) : Type 0 where
  pub fits : order < max → size ≤ 2 ^ order
  pub least : (k : ℕ) → k < order → 2 ^ k < size
  pub bounded : order ≤ max

pub one_shl_lem : (order : ℕ) → order < 64 → one_shl order ≡ 2 ^ order
one_shl_lem order h = ap (λ (k : ℕ). 2 ^ k) (mod-eq_of_lt h)

below_suc :
    (size order : ℕ)
    → ((k : ℕ) → k < order → 2 ^ k < size)
    → 2 ^ order < size
    → (k : ℕ) → k < order + 1
    → 2 ^ k < size
below_suc size order below last k h = elim (dec_lt k order) [
  | yes p ↦ below k p
  | no p ↦ let e : order ≡ k = omega arith in subst (λ n. 2 ^ n < size) e last
]

from_offset_loop-IsOrder :
    (fuel size max order : ℕ)
    → size ≤ 2 ^ 63
    → order < max
    → order + fuel ≡ 64
    → ((k : ℕ) → k < order → 2 ^ k < size)
    → (r : ℕ) × (from_offset_loop fuel size max order ≡ some r) × IsOrder size max r
unfolding from_offset_loop
from_offset_loop-IsOrder zero size max order small h e below =
    absurd (omega (arith, below 63 (omega arith)))
from_offset_loop-IsOrder (suc fuel) size max order small h e below =
    rw (one_shl_lem order (omega arith)) (elim (Bool-cases (ltb (2 ^ order) size)) [
      | inl more ↦ elim (Bool-cases (leb max (order + 1))) [
        | inl last ↦ (
          max,
          rw (more, last),
          record {
            fits = λ p. absurd (omega arith);
            least = λ k p. below_suc size order below (ltb→lt _ _ more) k (ground arith);
            bounded = omega arith;
          },
        )
        | inr on ↦
            let (r, run, is) =
              from_offset_loop-IsOrder fuel size max (order + 1) small (ground arith) (omega arith)
                (below_suc size order below (ltb→lt _ _ more)) in
            (r, rw (more, on) run, is)
      ]
      | inr done ↦ (
        order,
        rw done,
        record { fits = λ p. ground arith; least = below; bounded = omega arith },
      )
    ])

-- For every size up to 2 ^ 63 and every positive bound, the loop of `from_offset` ends within its 64
-- rounds, with the least order whose size holds `size`, or with the bound if that is less.
pub from_offset-IsOrder :
    (size max : ℕ)
    → size ≤ 2 ^ 63
    → 0 < max
    → (r : ℕ) × (from_offset size max ≡ some r) × IsOrder size max r
unfolding from_offset
from_offset-IsOrder size max small h =
    from_offset_loop-IsOrder 64 size max 0 small h (omega arith) (λ k p. absurd (omega arith))

two_pow_lt : (r order : ℕ) → r < order → 2 ^ r < 2 ^ order
two_pow_lt r order p = omega (
  arith,
  pow-suc 2 r,
  pow-le-pow_right {n = 2} (omega arith) {i = suc r} {j = order} p,
  pow-le-pow_right {n = 2} (omega arith) {i = 0} {j = r} (omega arith),
)

positive : (order max : ℕ) → order < max → 0 < max
positive order max k = omega arith

eq_of_order : (order max r : ℕ) → order < max → IsOrder (2 ^ order) max r → r ≡ order
eq_of_order order max r k is = elim (dec_lt r order) [
  | yes p ↦ absurd (omega (arith, is.fits (omega arith), two_pow_lt r order p))
  | no p ↦ elim (dec_lt order r) [
    | yes q ↦ absurd (omega (arith, is.least order q))
    | no q ↦ omega arith
  ]
]

-- `from_offset` undoes `to_offset` on every order below 64 and below the bound.
pub from_offset-to_offset :
    (order max : ℕ) → order < 64 → order < max → from_offset (to_offset order) max ≡ some order
unfolding to_offset
from_offset-to_offset order max h k =
    let e : to_offset order ≡ 2 ^ order = one_shl_lem order h in
    let small : 2 ^ order ≤ 2 ^ 63 =
      pow-le-pow_right {n = 2} (omega arith) {i = order} {j = 63} (omega arith) in
    let (r, run, is) = from_offset-IsOrder (2 ^ order) max small (positive order max k) in
    rw (e, run) (ap some (eq_of_order order max r k is))

-- An order up to that of a page is a small positive number of bytes.
pub to_offset_bounds : (order : ℕ) → order ≤ 12 → (0 < to_offset order) × (to_offset order ≤ 4096)
unfolding to_offset
to_offset_bounds order h = omega (
  arith,
  one_shl_lem order (omega arith),
  pow-le-pow_right {n = 2} (omega arith) {i = 0} {j = order} (omega arith),
  pow-le-pow_right {n = 2} (omega arith) {i = order} {j = 12} h,
)
