-- ===== src/Memory/Page.antt =====
-- arch/x86_64/paging/mod.rs: the page size. `x & !(m - 1)` with `m` a power of two is
-- `align_down x m`.
use methylenix.Base.{ℕ, ◌*◌, ◌/◌, ◌%◌, ◌^◌}

abbrev pub page_shift : ℕ
page_shift = 12

abbrev pub page_size : ℕ
page_size = 4096

abbrev pub align_down : ℕ → ℕ → ℕ
align_down x m = x / m * m

-- A shift of a `usize` masks its amount in a release build.
abbrev pub one_shl : ℕ → ℕ
one_shl k = 2 ^ (k % 64)
