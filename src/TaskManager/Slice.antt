-- ===== src/TaskManager/Slice.antt =====
-- The time slices.
use methylenix.Base.{
  ℕ, ◌+◌, ◌-◌, ◌*◌, ◌/◌, ◌%◌, ◌^◌, ◌≤◌, ◌<◌, ◌≡◌, ◌⊎◌, inl, inr, true, false, ◌&&◌, Bool-cases,
  refl, if◌then◌else◌, leb, ◌==◌, arith, max, usize_mod, Returns,
}
use native.Mathlib.Nat.{div-le_self, lt-mul-div-succ, mul-div-le, mul-le-mul_left}
use methylenix.TaskManager.Thread.{
  SchedulingClass, kernel_thread, user_thread, kernel_time_slice, user_time_slice,
  calculate_time_slice,
}

-- The levels for which a class has a time slice.
abbrev pub HasSlice : SchedulingClass → ℕ → Type 0
HasSlice kernel_thread p = (p ≡ 255) ⊎ ((80 ≤ p) × (p ≤ 120))
HasSlice user_thread p = (100 ≤ p) × (p ≤ 140)

abbrev pub SliceOf : ℕ → Type 0
SliceOf s = (10 ≤ s) × (s ≤ 8000)

share_pos : (n : ℕ) → 0 < n → n < 2 ^ 32 → (n * 10 % usize_mod == 0) ≡ false
share_pos n pos small = ground arith

slice_bounds : (a share : ℕ) → a ≤ 8000 → SliceOf (max (a / share) 10)
slice_bounds a share le = let le' = div-le_self a share in ground arith

kernel_time_slice-SliceOf :
    (p n : ℕ)
    → HasSlice kernel_thread p
    → 0 < n
    → n < 2 ^ 32
    → Returns SliceOf (kernel_time_slice p n 10)
unfolding kernel_time_slice
kernel_time_slice-SliceOf p n (inl idle) pos small = rw idle (omega arith)
kernel_time_slice-SliceOf p n (inr (from, to)) pos small =
    let other : (p == 255) ≡ false = ground arith in
    let inside : (leb 80 p && leb p 120) ≡ true = ground arith in
    rw (other, inside, share_pos n pos small)
      (slice_bounds (200 * (120 - p)) (n * 10 % usize_mod) (omega arith))

user_time_slice-SliceOf :
    (p n : ℕ)
    → HasSlice user_thread p
    → 0 < n
    → n < 2 ^ 32
    → Returns SliceOf (user_time_slice p n 10)
unfolding user_time_slice
user_time_slice-SliceOf p n (from, to) pos small =
    let inside : (leb 100 p && leb p 140) ≡ true = ground arith in
    rw (inside, share_pos n pos small)
      (slice_bounds (200 * (140 - p)) (n * 10 % usize_mod) (omega arith))

-- Every time slice is between 10 and 8000 ticks.
pub calculate_time_slice-SliceOf :
    (c : SchedulingClass) (p n : ℕ)
    → HasSlice c p
    → 0 < n
    → n < 2 ^ 32
    → Returns SliceOf (calculate_time_slice c p n 10)
unfolding calculate_time_slice
calculate_time_slice-SliceOf kernel_thread p n = kernel_time_slice-SliceOf p n
calculate_time_slice-SliceOf user_thread p n = user_time_slice-SliceOf p n

-- The time that a level is worth, in the unit of the class; the idle thread has none.
abbrev pub budget : SchedulingClass → ℕ → ℕ
budget kernel_thread p = if p == 255 then 0 else 200 * (120 - p)
budget user_thread p = 200 * (140 - p)

-- The greatest number `s` of ticks such that each of `n` threads can have `s` ticks of 10 out of the
-- budget; but 10 where that is less.
abbrev pub IsShare : ℕ → ℕ → ℕ → Type 0
IsShare budget n s = (10 ≤ s) × ((s ≡ 10) ⊎ (n * 10 * s ≤ budget)) × (budget < n * 10 * (s + 1))

share_lem : (w n s : ℕ) → 0 < n * 10 → s ≡ max (w / (n * 10)) 10 → IsShare w n s
share_lem w n s pos e =
    let d : ℕ = w / (n * 10) in
    let up = lt-mul-div-succ w pos in
    let down = mul-div-le w (n * 10) in
    elim (Bool-cases (leb d 10)) [
      | inl least ↦
          let is : s ≡ 10 = ground arith in
          let wide : n * 10 * (d + 1) ≤ n * 10 * (s + 1) =
            mul-le-mul_left (n * 10) (ground arith) in
          (omega arith, inl is, omega arith)
      | inr more ↦ let is : s ≡ d = ground arith in rw is (ground arith, inr down, up)
    ]

share_of : (n : ℕ) → n < 2 ^ 32 → n * 10 % usize_mod ≡ n * 10
share_of n small = omega arith

-- At a level of its class, and for every positive number `n` of threads below 2 ^ 32, no assertion of
-- `calculate_time_slice` fails and nothing is divided by zero. The time slice is the greatest number of ticks
-- that `n` threads can all have out of the budget of the level, in ticks of 10; but 10 where that is
-- less, and for the idle thread.
pub calculate_time_slice-IsShare :
    (c : SchedulingClass) (p n : ℕ)
    → HasSlice c p
    → 0 < n
    → n < 2 ^ 32
    → Returns (IsShare (budget c p) n) (calculate_time_slice c p n 10)
unfolding calculate_time_slice kernel_time_slice user_time_slice
calculate_time_slice-IsShare kernel_thread p n (inl idle) pos small =
    rw idle (omega arith, inl refl, omega arith)
calculate_time_slice-IsShare kernel_thread p n (inr (from, to)) pos small =
    let other : (p == 255) ≡ false = ground arith in
    let inside : (leb 80 p && leb p 120) ≡ true = ground arith in
    rw (other, inside, share_pos n pos small, share_of n small)
      (share_lem (200 * (120 - p)) n _ (omega arith) refl)
calculate_time_slice-IsShare user_thread p n (from, to) pos small =
    let inside : (leb 100 p && leb p 140) ≡ true = ground arith in
    rw (inside, share_pos n pos small, share_of n small)
      (share_lem (200 * (140 - p)) n _ (omega arith) refl)
