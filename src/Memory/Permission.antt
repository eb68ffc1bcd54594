-- ===== src/Memory/Permission.antt =====
-- kernel/memory_manager/data_type.rs: `MemoryPermissionFlags`, four flags in a byte.
use methylenix.Base.{ℕ, ◌+◌, ◌*◌, ◌/◌, ◌%◌, ◌^◌, ◌<◌, ◌≡◌, Bool, true, false, not, ◌==◌, arith}

abbrev pub bit : Bool → ℕ
bit true = 1
bit false = 0

-- `MemoryPermissionFlags::new`; the shifted bits do not meet, so `|` is `+`.
unfoldable pub new : Bool → Bool → Bool → Bool → ℕ
new read write execute user_access =
    bit read + bit write * 2 + bit execute * 4 + bit user_access * 8

-- `self.0 & (1 << k) != 0`
abbrev pub test_bit : ℕ → ℕ → Bool
test_bit flags k = not (flags / 2 ^ k % 2 == 0)

unfoldable pub is_readable : ℕ → Bool
is_readable flags = test_bit flags 0

unfoldable pub is_writable : ℕ → Bool
is_writable flags = test_bit flags 1

unfoldable pub is_executable : ℕ → Bool
is_executable flags = test_bit flags 2

unfoldable pub is_user_accessible : ℕ → Bool
is_user_accessible flags = test_bit flags 3

-- Each test reads back the argument of `new` of its name, and the flags fit in a byte.
pub flags-new :
    (read write execute user_access : Bool)
    → (is_readable (new read write execute user_access) ≡ read)
      × (is_writable (new read write execute user_access) ≡ write)
      × (is_executable (new read write execute user_access) ≡ execute)
      × (is_user_accessible (new read write execute user_access) ≡ user_access)
      × (new read write execute user_access < 2 ^ 8)
unfolding new is_readable is_writable is_executable is_user_accessible
flags-new r w x u = ground arith
