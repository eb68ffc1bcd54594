-- ===== src/TaskManager/RunQueue/Join.antt =====
-- A thread that comes to the queue, and the ticks of the running thread.
use methylenix.Base.{
  ℕ, zero, suc, ◌+◌, ◌-◌, ◌<◌, ◌^◌, ◌≡◌, ◌≢◌, refl, ap, ◌∙◌, Bool, true, false, none, some, ltb,
  if◌then◌else◌, arith, Panics, ◌>>=◌, Returns, Returns-cases, add_usize,
}
use methylenix.TaskManager.Thread.{
  ThreadEntry, TaskStatus, Result, ok, err, calculate_time_slice, set_time_slice,
}
use methylenix.TaskManager.Slice.{HasSlice, budget, IsShare, calculate_time_slice-IsShare}
use methylenix.TaskManager.RunQueue.{
  RunQueue, set_thread, last_entry, last_is_locked, is_raised, made_runnable, add_to_run_list,
  add_thread, tick,
}
use methylenix.TaskManager.RunQueue.Order.{IsSorted, queue_of, joined, add_to_lists-Added}
use methylenix.TaskManager.RunQueue.Valid.{Holds, waiting}
use methylenix.TaskManager.RunQueue.Retire.{set_thread_self, set_thread_ne}

-- The thread is to run with its share among `n` threads, and is as it was otherwise.
abbrev pub RunsFor : ThreadEntry → ℕ → ThreadEntry → Type 0
RunsFor e n e' =
    (s : ℕ) × IsShare (budget e.scheduling_class e.priority_level) n s
    × (e' ≡ record e { status = TaskStatus.running; time_slice = s })

-- What `add_thread` leaves.
pub record Joined (q : RunQueue) (t : ℕ) (raised : Bool) (q' : RunQueue) : Type 0 where
  pub sorted : IsSorted 0 q'.run_list
  pub queues :
      (p : ℕ)
      → queue_of p q'.run_list
        ≡ joined (q.threads t).priority_level t (λ k. queue_of k q.run_list) p
  pub expired : q'.expired_list ≡ q.expired_list
  pub same_idle : q'.idle_thread ≡ q.idle_thread
  pub same_running : q'.running_thread ≡ q.running_thread
  pub counted : q'.number_of_threads ≡ q.number_of_threads + 1
  pub thread : RunsFor (q.threads t) (q.number_of_threads + 1) (q'.threads t)
  pub others : (x : ℕ) → x ≢ t → q'.threads x ≡ q.threads x
  pub reschedules : q'.should_reschedule ≡ (if raised then true else q.should_reschedule)
  pub rechecks : q'.should_recheck_priority ≡ (if raised then true else q.should_recheck_priority)

abbrev pub JoinedIf : RunQueue → ℕ → Bool → Result RunQueue → Type 0
JoinedIf q t raised (ok q') = Joined q t raised q'
JoinedIf q t raised (err e) = ⊥

made_runnable_run :
    (q : RunQueue) (t s : ℕ)
    → q.number_of_threads + 1 < 2 ^ 32
    → calculate_time_slice
        (q.threads t).scheduling_class
        (q.threads t).priority_level
        (q.number_of_threads + 1)
        10
      ≡ some s
    → made_runnable t q
      ≡ some (
          set_thread t
            (record (q.threads t) { status = TaskStatus.running; time_slice = s })
            (record q {
              number_of_threads = q.number_of_threads + 1;
              should_recheck_priority = if is_raised q t then true else q.should_recheck_priority;
              should_reschedule = if is_raised q t then true else q.should_reschedule;
            }))
unfolding made_runnable set_time_slice
made_runnable_run q t s few run =
    let n : add_usize q.number_of_threads 1 ≡ q.number_of_threads + 1 = omega arith in
    rw (n, run) refl

-- With sorted lists, an object for a new list, the last thread of the level unlocked, a level for which the
-- thread's class has a time slice and fewer than 2 ^ 32 - 1 threads, `add_thread` of a locked thread that is
-- in no list succeeds while a thread runs: the thread is to run, with its share of the time as
-- time slice, comes to the end of the queue of its level and is counted, and nothing else of the queues, the
-- threads, the idle thread and the running one changes. It asks for another schedule, and for the test of the
-- priorities in it, where the level of the running thread is below that of the new one.
pub add_thread-Joined :
    (q : RunQueue) (r t : ℕ)
    → q.running_thread ≡ some r
    → IsSorted 0 q.run_list
    → ((p : ℕ) → Holds t (waiting q p) → ⊥)
    → (q.threads t).is_locked ≡ true
    → last_is_locked q.threads (last_entry (queue_of (q.threads t).priority_level q.run_list))
      ≡ false
    → HasSlice (q.threads t).scheduling_class (q.threads t).priority_level
    → q.number_of_threads + 1 < 2 ^ 32
    → Returns
        (JoinedIf q t (ltb (q.threads r).priority_level (q.threads t).priority_level))
        (add_thread true t q)
unfolding add_thread add_to_run_list
add_thread-Joined q r t current sorted unlinked locked free slice few =
    let a =
      add_to_lists-Added q.threads 0 (q.threads t).priority_level t q.run_list sorted (omega arith)
        free in
    let e : ThreadEntry = q.threads t in
    let (s, sliced, share) =
      Returns-cases (IsShare (budget e.scheduling_class e.priority_level) (q.number_of_threads + 1))
        (calculate_time_slice e.scheduling_class e.priority_level (q.number_of_threads + 1) 10)
        (calculate_time_slice-IsShare e.scheduling_class e.priority_level (q.number_of_threads + 1)
          slice (omega arith) few) in
    let run = made_runnable_run (record q { run_list = a.lists }) t s few sliced in
    let raise : is_raised q t ≡ ltb (q.threads r).priority_level (q.threads t).priority_level =
      ap
        (λ o. elim o as (λ _. Bool) [
          | none ↦ false
          | some u ↦ ltb (q.threads u).priority_level (q.threads t).priority_level
        ])
        current in
    rw (locked, a.added, run)
      (record {
        sorted = a.sorted;
        queues = a.queues;
        expired = refl;
        counted = refl;
        same_idle = refl;
        same_running = refl;
        thread = (
          s,
          share,
          set_thread_self t (record (q.threads t) { status = TaskStatus.running; time_slice = s })
              q,
        );
        others = λ x ne.
            set_thread_ne t x (record (q.threads t) { status = TaskStatus.running; time_slice = s })
              q ne;
        reschedules = ap (λ b. if b then true else q.should_reschedule) raise;
        rechecks = ap (λ b. if b then true else q.should_recheck_priority) raise;
      })

-- `n` ticks
abbrev pub ticks : ℕ → RunQueue → Panics RunQueue
ticks zero q = some q
ticks (suc n) q = tick q >>= ticks n

tick_run :
    (q : RunQueue) (r : ℕ)
    → q.running_thread ≡ some r
    → tick q
      ≡ some (
          if ltb (q.threads r).time_slice 1
          then record (set_thread r (record (q.threads r) { time_slice = 0 }) q) {
            should_reschedule = true;
          }
          else set_thread r (record (q.threads r) { time_slice = (q.threads r).time_slice - 1 }) q)
unfolding tick
tick_run q r current =
    ap
      (λ o. o >>= λ u. some (
        if ltb (q.threads u).time_slice 1
        then record (set_thread u (record (q.threads u) { time_slice = 0 }) q) {
          should_reschedule = true;
        }
        else set_thread u (record (q.threads u) { time_slice = (q.threads u).time_slice - 1 }) q))
      current

-- While a thread runs that has a time slice of `n` ticks, `n` ticks and one more ask for another schedule.
pub ticks-should_reschedule :
    (n : ℕ) (q : RunQueue) (r : ℕ)
    → q.running_thread ≡ some r
    → (q.threads r).time_slice ≡ n
    → Returns (λ q'. q'.should_reschedule ≡ true) (ticks (suc n) q)
ticks-should_reschedule zero q r current slice =
    let over : ltb (q.threads r).time_slice 1 ≡ true = ground arith in
    rw (tick_run q r current, over) refl
ticks-should_reschedule (suc n) q r current slice =
    let left : ltb (q.threads r).time_slice 1 ≡ false = ground arith in
    let e : ThreadEntry = record (q.threads r) { time_slice = (q.threads r).time_slice - 1 } in
    rw (tick_run q r current, left)
      (ticks-should_reschedule n (set_thread r e q) r current
        (ap (λ (f : ThreadEntry). f.time_slice) (set_thread_self r e q) ∙ omega (arith, slice)))
