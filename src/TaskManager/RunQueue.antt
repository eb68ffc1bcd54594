-- ===== src/TaskManager/RunQueue.antt =====
-- kernel/task_manager/run_queue.rs: the queue of a processor. A list of threads is the list of their
-- addresses; `threads` gives the thread at an address. The lock of the queue makes each operation one step,
-- and interrupts are off in it. The lock of a thread is state, since the code tests it: a lock that is waited
-- for is free, or the code does not go on. The objects of the list allocator are there or not.
pub mod Schedule
pub mod Order
pub mod Remove
pub mod Valid
pub mod Retire
pub mod Find
pub mod Keep
pub mod Switch
pub mod Choose
pub mod Total
pub mod Run
pub mod Join
use methylenix.Base.{
  ℕ, ◌+◌, ◌-◌, ◌==◌, Bool, true, false, not, ◌&&◌, Option, none, some, List, [], ◌∷◌, ◌++◌, leb,
  ltb, if◌then◌else◌, is_none, Panics, ◌>>=◌, ◌>>◌, assert, add_usize, sub_usize,
}
use methylenix.TaskManager.Thread.{
  TaskStatus, is_running, TaskError, thread_lock_error, invalid_thread_entry, Result, ok, err,
  ThreadEntry, set_time_slice,
}

pub record RunList : Type 0 where
  pub priority_level : ℕ
  pub thread_list : List ℕ

pub record RunQueue : Type 0 where
  pub run_list : List RunList
  pub expired_list : List RunList
  pub idle_thread : ℕ
  pub running_thread : Option ℕ
  pub should_recheck_priority : Bool
  pub should_reschedule : Bool
  pub number_of_threads : ℕ
  pub threads : ℕ → ThreadEntry

abbrev pub timer_interval_ms : ℕ
timer_interval_ms = 10

abbrev pub set_thread : ℕ → ThreadEntry → RunQueue → RunQueue
set_thread t e q = record q { threads = λ i. if i == t then e else q.threads i }

abbrev pub front : List ℕ → Option ℕ
front [] = none
front (t ∷ ts) = some t

abbrev pub or_else : Option ℕ → Option ℕ → Option ℕ
or_else (some t) o = some t
or_else none o = o

-- The first thread of the first list that has one.
unfoldable pub get_highest_priority_thread : List RunList → Option ℕ
get_highest_priority_thread [] = none
get_highest_priority_thread (l ∷ ls) =
    or_else (front l.thread_list) (get_highest_priority_thread ls)

abbrev pub last_entry : List ℕ → Option ℕ
last_entry [] = none
last_entry (t ∷ ts) = elim (last_entry ts) [ none ↦ some t | some u ↦ some u ]

-- The last entry of the list could not be locked.
abbrev pub last_is_locked : (ℕ → ThreadEntry) → Option ℕ → Bool
last_is_locked threads none = false
last_is_locked threads (some t) = (threads t).is_locked

abbrev pub in_front : RunList → Result (List RunList) → Result (List RunList)
in_front l (ok ls) = ok (l ∷ ls)
in_front l (err e) = err e

-- The loop of `_add_thread` over the lists, for a thread that is in no list (the source would relink the node of
-- another); `allocated` is whether `alloc_run_list` gets a list.
unfoldable pub add_to_lists :
    (ℕ → ThreadEntry) → Bool → ℕ → ℕ → List RunList → Panics (Result (List RunList))
add_to_lists threads allocated priority t [] = do
  assert allocated
  some (ok (record { priority_level = priority; thread_list = t ∷ [] } ∷ []))
add_to_lists threads allocated priority t (l ∷ ls) =
    let rest = add_to_lists threads allocated priority t ls in
    if l.priority_level == priority
    then (if last_is_locked threads (last_entry l.thread_list)
        then some (err thread_lock_error)
        else some (ok (record l { thread_list = l.thread_list ++ t ∷ [] } ∷ ls)))
    else if ltb priority l.priority_level
    then (do
      assert allocated
      some (ok (record { priority_level = priority; thread_list = t ∷ [] } ∷ l ∷ ls)))
    else (do r ← rest; some (in_front l r))

-- The test of `_add_thread` against the running thread
abbrev pub is_raised : RunQueue → ℕ → Bool
is_raised q t = elim q.running_thread [
  | none ↦ false
  | some r ↦ ltb (q.threads r).priority_level (q.threads t).priority_level
]

-- The tail of `_add_thread` for the list of the threads to run.
unfoldable pub made_runnable : ℕ → RunQueue → Panics RunQueue
unfolding set_time_slice
made_runnable t q =
    let n = add_usize q.number_of_threads 1 in
    let raised = is_raised q t in
    do
      e ← set_time_slice n timer_interval_ms (record (q.threads t) { status = TaskStatus.running })
      some (
          set_thread t e (record q {
            number_of_threads = n;
            should_recheck_priority = if raised then true else q.should_recheck_priority;
            should_reschedule = if raised then true else q.should_reschedule;
          }))

-- `_add_thread`; an error leaves the queue as it was.
unfoldable pub add_to_run_list : Bool → ℕ → RunQueue → Panics (Result RunQueue)
add_to_run_list allocated t q = do
  r ← add_to_lists q.threads allocated (q.threads t).priority_level t q.run_list
  elim r [
    | err e ↦ some (err e)
    | ok ls ↦ do q' ← made_runnable t (record q { run_list = ls }); some (ok q')
  ]

unfoldable pub set_thread_to_expired_thread : Bool → ℕ → RunQueue → Panics (Result RunQueue)
set_thread_to_expired_thread allocated t q = do
  r ← add_to_lists q.threads allocated (q.threads t).priority_level t q.expired_list
  elim r [ err e ↦ some (err e) | ok ls ↦ some (ok (record q { expired_list = ls })) ]

-- `add_thread`; the result with the queue, as the caller leaves it.
unfoldable pub add_thread : Bool → ℕ → RunQueue → Panics (Result RunQueue)
unfolding add_to_run_list
add_thread allocated t q = do assert (q.threads t).is_locked; add_to_run_list allocated t q

-- `assign_thread`: whether the processor of the queue is to be told, and the queue.
unfoldable pub assign_thread : Bool → ℕ → RunQueue → Panics (Result (Bool × RunQueue))
unfolding add_to_run_list
assign_thread allocated t q = do
  assert (q.threads t).is_locked
  r ← add_to_run_list allocated t q
  elim r [
    | err e ↦ some (err e)
    | ok q' ↦ elim q'.running_thread [
      | none ↦ some (ok (false, q'))
      | some u ↦ do
        assert (not (q'.threads u).is_locked)
        some (
            ok (
              if ltb (q'.threads t).priority_level (q'.threads u).priority_level
              then (true, record q' { should_reschedule = true })
              else (false, q')))
    ]
  ]

-- Takes the node of `t` out of a list in which it is linked.
abbrev pub without : ℕ → List ℕ → List ℕ
without t [] = []
without t (u ∷ us) = if u == t then us else u ∷ without t us

-- `remove_target_thread`: the first list of the priority.
unfoldable pub remove_from_lists : ℕ → ℕ → List RunList → Result (List RunList)
remove_from_lists priority t [] = err invalid_thread_entry
remove_from_lists priority t (l ∷ ls) =
    let rest = remove_from_lists priority t ls in
    if l.priority_level == priority
    then ok (record l { thread_list = without t l.thread_list } ∷ ls)
    else in_front l rest

unfoldable pub remove_target_thread : ℕ → RunQueue → Panics (Result RunQueue)
remove_target_thread t q = do
  assert (q.threads t).is_locked
  elim (remove_from_lists (q.threads t).priority_level t q.run_list) [
    | err e ↦ some (err e)
    | ok ls ↦ some (ok (record q { run_list = ls }))
  ]

unfoldable pub remove_thread : ℕ → RunQueue → Panics (Result RunQueue)
unfolding remove_target_thread
remove_thread t q = do
  assert (q.threads t).is_locked
  if is_running (q.threads t).status then some (err invalid_thread_entry) else do
    r ← remove_target_thread t q
    elim r [
      | err e ↦ some (err e)
      | ok q' ↦ some (ok (record q' { number_of_threads = sub_usize q'.number_of_threads 1 }))
    ]

unfoldable pub set_idle_thread : ℕ → RunQueue → RunQueue
set_idle_thread t q =
    record (set_thread t (record (q.threads t) { status = TaskStatus.running }) q) {
      idle_thread = t;
      number_of_threads = add_usize q.number_of_threads 1;
    }

-- `start`, up to the jump into the thread.
unfoldable pub start : RunQueue → RunQueue
unfolding get_highest_priority_thread
start q =
    let t = elim (get_highest_priority_thread q.run_list) as (λ _. ℕ) [
      | none ↦ q.idle_thread
      | some u ↦ u
    ] in
    record (set_thread t (record (q.threads t) { status = TaskStatus.running }) q) {
      running_thread = some t;
    }

unfoldable pub tick : RunQueue → Panics RunQueue
tick q = do
  r ← q.running_thread
  let t = q.threads r
  some (
      if ltb t.time_slice 1
      then record (set_thread r (record t { time_slice = 0 }) q) { should_reschedule = true }
      else set_thread r (record t { time_slice = t.time_slice - 1 }) q)
