-- ===== src/TaskManager/Thread.antt =====
-- kernel/task_manager/thread_entry.rs and scheduling_class.rs with its two classes: a thread and its time
-- slice. The context, which only the processor reads, and the list nodes are left out; the queues hold
-- the lists of their threads, and a thread is known by its address.
use methylenix.Base.{
  ℕ, ◌+◌, ◌-◌, ◌*◌, ◌/◌, ◌%◌, ◌==◌, Bool, true, false, not, ◌&&◌, some, leb, ltb, if◌then◌else◌,
  max, usize_mod, Panics, ◌>>=◌, ◌>>◌, assert,
}
use methylenix.Memory.Error.{MemoryError}

pub data TaskStatus : Type 0 where
  new interruptible uninterruptible running stopped : TaskStatus

abbrev pub is_running : TaskStatus → Bool
is_running running = true
is_running _ = false

pub data TaskError : Type 0 where
  memory_error : MemoryError → TaskError
  thread_lock_error : TaskError
  invalid_process_entry : TaskError
  invalid_thread_entry : TaskError

-- Rust's `Result<A, TaskError>`
pub data Result (A : Type 0) : Type 0 where
  ok : A → Result A
  err : TaskError → Result A

pub data SchedulingClass : Type 0 where
  kernel_thread user_thread : SchedulingClass

abbrev pub idle_thread_priority : ℕ
idle_thread_priority = 255

-- `get_custom_priority` of the two classes
unfoldable pub kernel_custom_priority : ℕ → Panics ℕ
kernel_custom_priority level = do assert (ltb level 40); some (80 + level)

unfoldable pub user_custom_priority : ℕ → Panics ℕ
user_custom_priority level = do assert (ltb level 40); some (100 + level)

-- `calculate_time_slice` of the two classes
unfoldable pub kernel_time_slice : ℕ → ℕ → ℕ → Panics ℕ
kernel_time_slice priority_level number_of_threads interval_ms =
    let share = number_of_threads * interval_ms % usize_mod in
    if priority_level == idle_thread_priority then some 10 else do
      assert (leb 80 priority_level && leb priority_level 120)
      assert (not (share == 0))
      some (max (200 * (120 - priority_level) / share) 10)

unfoldable pub user_time_slice : ℕ → ℕ → ℕ → Panics ℕ
user_time_slice priority_level number_of_threads interval_ms = do
  assert (leb 100 priority_level && leb priority_level 140)
  let share = number_of_threads * interval_ms % usize_mod
  assert (not (share == 0))
  some (max (200 * (140 - priority_level) / share) 10)

-- `SchedulingClass::calculate_time_slice`
unfoldable pub calculate_time_slice : SchedulingClass → ℕ → ℕ → ℕ → Panics ℕ
unfolding kernel_time_slice user_time_slice
calculate_time_slice kernel_thread p n i = kernel_time_slice p n i
calculate_time_slice user_thread p n i = user_time_slice p n i

-- A thread; `is_locked` is the state of its `lock`, and `pid` stands for the process.
pub record ThreadEntry : Type 0 where
  pub is_locked : Bool
  pub time_slice : ℕ
  pub status : TaskStatus
  pub thread_id : ℕ
  pub pid : ℕ
  pub priority_level : ℕ
  pub scheduling_class : SchedulingClass

unfoldable pub set_time_slice : ℕ → ℕ → ThreadEntry → Panics ThreadEntry
unfolding calculate_time_slice
set_time_slice number_of_threads timer_interval t = do
  slice ← calculate_time_slice t.scheduling_class t.priority_level number_of_threads timer_interval
  some (record t { time_slice = slice })
