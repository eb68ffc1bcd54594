-- ===== src/TaskManager/RunQueue/Schedule.antt =====
-- kernel/task_manager/run_queue.rs: `_schedule`, up to the switch of the context and of the paging table,
-- which the result names.
use methylenix.Base.{
  ℕ, ◌==◌, Bool, true, false, not, ◌&&◌, Option, none, some, List, [], ◌∷◌, ◌++◌, if◌then◌else◌,
  Panics, ◌>>=◌, ◌>>◌, assert,
}
use methylenix.TaskManager.Thread.{TaskStatus, is_running, Result, ok, err, set_time_slice}
use methylenix.TaskManager.RunQueue.{
  RunList, RunQueue, front, or_else, set_thread, timer_interval_ms, get_highest_priority_thread,
  set_thread_to_expired_thread, remove_target_thread,
}

-- `t.lock.lock()` goes on when the lock is free.
unfoldable pub lock_thread : ℕ → RunQueue → Panics RunQueue
lock_thread t q = do
  assert (not (q.threads t).is_locked)
  some (set_thread t (record (q.threads t) { is_locked = true }) q)

unfoldable pub unlock_thread : ℕ → RunQueue → RunQueue
unlock_thread t q = set_thread t (record (q.threads t) { is_locked = false }) q

abbrev pub unwrap_ok : {A : Type 0} → Result A → Panics A
unwrap_ok (ok a) = some a
unwrap_ok (err e) = none

-- The neighbours of `t` in a list, `none` where there is none or `t` is not linked.
unfoldable pub next_of : ℕ → List ℕ → Option ℕ
next_of t [] = none
next_of t (u ∷ us) = let rest = next_of t us in if u == t then front us else rest

unfoldable pub prev_of : ℕ → Option ℕ → List ℕ → Option ℕ
prev_of t before [] = none
prev_of t before (u ∷ us) = let rest = prev_of t (some u) us in if u == t then before else rest

-- `get_next_mut` and `get_prev_mut` of a thread's node: a thread is in one list at most.
abbrev pub find_in : (List ℕ → Option ℕ) → List RunList → Option ℕ
find_in f [] = none
find_in f (l ∷ ls) = or_else (f l.thread_list) (find_in f ls)

unfoldable pub get_next : ℕ → List RunList → Option ℕ
get_next t ls = find_in (next_of t) ls

unfoldable pub get_prev : ℕ → List RunList → Option ℕ
get_prev t ls = find_in (prev_of t none) ls

-- `get_prev_thread_lock`, and the drop of its result
abbrev pub lock_prev : Option ℕ → RunQueue → Panics RunQueue
lock_prev none q = some q
lock_prev (some p) q = lock_thread p q

abbrev pub unlock_prev : Option ℕ → RunQueue → RunQueue
unlock_prev none q = q
unlock_prev (some p) q = unlock_thread p q

-- A new time slice for the thread at `t`.
unfoldable pub renew_time_slice : ℕ → RunQueue → Panics RunQueue
renew_time_slice t q = do
  e ← set_time_slice q.number_of_threads timer_interval_ms (q.threads t)
  some (set_thread t e q)

-- The running thread leaves its list; if it is still to run, it goes to the expired ones.
unfoldable pub retire : Bool → ℕ → RunQueue → Panics RunQueue
unfolding renew_time_slice
retire allocated r q = do
  removed ← remove_target_thread r q
  q₁ ← unwrap_ok removed
  if is_running (q₁.threads r).status
      then (do
        q₂ ← renew_time_slice r q₁
        added ← set_thread_to_expired_thread allocated r q₂
        unwrap_ok added)
      else some q₁

abbrev pub or_idle : Option ℕ → RunQueue → ℕ
or_idle (some t) q = t
or_idle none q = q.idle_thread

-- The macro `get_next_thread`
unfoldable pub get_next_thread : RunQueue → ℕ × RunQueue
get_next_thread q = elim (get_highest_priority_thread q.run_list) [
  | some t ↦ (t, q)
  | none ↦
      let q' = record q { run_list = q.expired_list; expired_list = q.run_list } in
      (or_idle (get_highest_priority_thread q'.run_list) q', q')
]

-- The thread that is next, where one follows the running thread in its list.
unfoldable pub next_in_list : Bool → ℕ → ℕ → RunQueue → Panics (ℕ × RunQueue)
next_in_list allocated r next q = do
  assert (not (r == q.idle_thread))
  q₁ ← lock_thread next q
  let prev = get_prev r (q.run_list ++ q.expired_list)
  q₂ ← lock_prev prev q₁
  q₃ ← retire allocated r q₂
  let q₄ = unlock_thread next (unlock_prev prev q₃)
  some (
      if q₄.should_recheck_priority
      then (
        elim (get_highest_priority_thread q₄.run_list) as (λ _. ℕ) [ some t ↦ t | none ↦ next ],
        record q₄ { should_recheck_priority = false },
      )
      else (next, q₄))

-- The thread that is next, where none follows.
unfoldable pub next_of_queue : Bool → ℕ → RunQueue → Panics (ℕ × RunQueue)
next_of_queue allocated r q =
    if r == q.idle_thread then (do q₁ ← renew_time_slice r q; some (get_next_thread q₁)) else (do
      let prev = get_prev r (q.run_list ++ q.expired_list)
      q₁ ← lock_prev prev q
      q₂ ← retire allocated r q₁
      some (get_next_thread (unlock_prev prev q₂)))

-- What `_schedule` ends with: the same thread goes on, or the processor switches from one to another, and
-- whether the process changes.
pub data Switch : Type 0 where
  same_task : Switch
  switch_to : ℕ → ℕ → Bool → Switch

unfoldable pub finish : ℕ → ℕ × RunQueue → Panics (Switch × RunQueue)
unfolding unlock_thread
finish r (next, q) = do
  assert (is_running (q.threads next).status)
  let q' = unlock_thread r q
  let same_process = (q.threads r).pid == (q.threads next).pid
  some (
      if ((q.threads r).thread_id == (q.threads next).thread_id) && same_process
      then (same_task, q')
      else (
        switch_to r next (not same_process),
        record q' { should_reschedule = false; running_thread = some next },
      ))

-- `_schedule` with the lock of the running thread held.
unfoldable pub schedule_locked : Bool → ℕ → RunQueue → Panics (Switch × RunQueue)
schedule_locked allocated r q = do
  chosen ← elim (get_next r (q.run_list ++ q.expired_list)) [
    | some next ↦ next_in_list allocated r next q
    | none ↦ next_of_queue allocated r q
  ]
  finish r chosen

unfoldable pub schedule : Bool → RunQueue → Panics (Switch × RunQueue)
schedule allocated q = do r ← q.running_thread; q₁ ← lock_thread r q; schedule_locked allocated r q₁

unfoldable pub sleep_current_thread : Bool → TaskStatus → RunQueue → Panics (Switch × RunQueue)
sleep_current_thread allocated task_status q = do
  r ← q.running_thread
  q₁ ← lock_thread r q
  schedule_locked allocated r (set_thread r (record (q₁.threads r) { status = task_status }) q₁)
