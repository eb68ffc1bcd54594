-- ===== src/Sync/Atomic.antt =====
-- The atomics that the locks are built on, and the threads that use them.
use methylenix.Base.{ℕ, Bool, true, false, ◌==◌, if◌then◌else◌}

-- `AtomicBool::compare_exchange(false, true, …)`: whether it succeeded, and the flag.
abbrev pub compare_exchange : Bool → Bool × Bool
compare_exchange false = (true, true)
compare_exchange true = (false, true)

-- What each thread is doing, changed at thread `i`.
abbrev pub update {ℓ} : {A : Type ℓ} → (ℕ → A) → ℕ → A → ℕ → A
update f i a j = if j == i then a else f j
