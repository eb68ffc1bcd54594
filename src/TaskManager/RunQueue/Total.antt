-- ===== src/TaskManager/RunQueue/Total.antt =====
-- `schedule` on a valid queue.
use methylenix.Base.{
  ℕ, ◌≡◌, ◌≢◌, refl, ◌∙◌, true, none, List, [], ◌∷◌, ◌++◌, ◌==◌, arith, inl, inr, Panics, ◌>>=◌,
  Returns, Returns->>=,
}
use methylenix.TaskManager.Thread.{is_running}
use methylenix.TaskManager.Slice.{HasSlice}
use methylenix.TaskManager.RunQueue.{RunQueue, set_thread}
use methylenix.TaskManager.RunQueue.Order.{queue_of}
use methylenix.TaskManager.RunQueue.Valid.{Holds, append-Holds, Ready, waiting, IsQueue}
use methylenix.TaskManager.RunQueue.Retire.{set_thread_self, set_thread_ne, renew_time_slice_run}
use methylenix.TaskManager.RunQueue.Find.{get_next_idle}
use methylenix.TaskManager.RunQueue.Keep.{Held, Kept}
use methylenix.TaskManager.RunQueue.Switch.{Scheduled, Current, finish-Scheduled}
use methylenix.TaskManager.RunQueue.Schedule.{
  finish, get_next, next_in_list, next_of_queue, schedule_locked,
}
use methylenix.TaskManager.RunQueue.Choose.{
  Chosen, get_next_thread-Chosen, next_is, next_in_list-Chosen, next_of_queue-Chosen,
}

-- The state in `_schedule` while the idle thread runs.
pub record IdleHeld (q : RunQueue) (r p : ℕ) : Type 0 where
  pub queue : IsQueue q
  pub others : (k x : ℕ) → Holds x (waiting q k) → Ready k (q.threads x)
  pub is_idle : r ≡ q.idle_thread
  pub level : (q.threads r).priority_level ≡ p
  pub slice : HasSlice (q.threads r).scheduling_class p

idle_apart : (q : RunQueue) (r p : ℕ) → IdleHeld q r p → (k x : ℕ) → Holds x (waiting q k) → x ≢ r
idle_apart q r p h k x w e = h.queue.idle_apart k (rw (e ∙ h.is_idle) at w)

idle-Kept :
    (q : RunQueue) (r p s : ℕ)
    → IdleHeld q r p
    → Kept q r (set_thread r (record (q.threads r) { time_slice = s }) q)
idle-Kept q r p s h = record {
  queue = record {
    run_sorted = h.queue.run_sorted;
    expired_sorted = h.queue.expired_sorted;
    once = h.queue.once;
    idle_apart = h.queue.idle_apart;
    some_threads = h.queue.some_threads;
    few_threads = h.queue.few_threads;
  };
  others = λ k x w ne.
      rw (set_thread_ne r x (record (q.threads r) { time_slice = s }) q ne) (h.others k x w);
  waits = λ x (k, w). ((k, w), inl (idle_apart q r p h k x w));
  waited = λ x w why. w;
  own_level = λ k w. absurd (idle_apart q r p h k r w refl);
  kept = λ x ne. set_thread_ne r x (record (q.threads r) { time_slice = s }) q ne;
  own = (s, set_thread_self r (record (q.threads r) { time_slice = s }) q);
  same_number = refl;
  same_idle = refl;
  same_running = refl;
}

idle-Chosen :
    (q : RunQueue) (r p : ℕ) → IdleHeld q r p → Returns (Chosen q r) (next_of_queue true r q)
unfolding next_of_queue
idle-Chosen q r p h =
    let same : (r == q.idle_thread) ≡ true = (let e = h.is_idle in ground arith) in
    let (s, run) =
      renew_time_slice_run r p q h.level h.slice h.queue.some_threads h.queue.few_threads in
    rw (same, run)
      (get_next_thread-Chosen q r (set_thread r (record (q.threads r) { time_slice = s }) q)
        (idle-Kept q r p s h))

idle_next :
    (q : RunQueue) (r p : ℕ) → IdleHeld q r p → get_next r (q.run_list ++ q.expired_list) ≡ none
idle_next q r p h =
    get_next_idle r 0 0 q.run_list q.expired_list h.queue.run_sorted h.queue.expired_sorted
      (λ k w.
        idle_apart q r p h k r
          (append-Holds r (queue_of k q.run_list) (queue_of k q.expired_list) (inr w)) refl)
      (λ k w.
        idle_apart q r p h k r
          (append-Holds r (queue_of k q.run_list) (queue_of k q.expired_list) (inl w)) refl)

finish-Chosen :
    (q : RunQueue) (r : ℕ) (m : Panics (ℕ × RunQueue))
    → Current q r
    → Returns (Chosen q r) m
    → Returns (Scheduled q r (is_running (q.threads r).status)) (m >>= finish r)
finish-Chosen q r m c chosen =
    Returns->>= (Scheduled q r (is_running (q.threads r).status)) m (finish r) chosen
      (λ (next, q') o. finish-Scheduled q r q' c o.kept next o.runs)

pub schedule-Held :
    (q : RunQueue) (r p : ℕ) (rest : List ℕ)
    → Held q r p rest
    → Current q r
    → Returns (Scheduled q r (is_running (q.threads r).status)) (schedule_locked true r q)
unfolding schedule_locked
schedule-Held q r p [] h c =
    rw (next_is q r p [] h, schedule_locked)
      (finish-Chosen q r (next_of_queue true r q) c (next_of_queue-Chosen q r p h))
schedule-Held q r p (n ∷ ts) h c =
    rw (next_is q r p (n ∷ ts) h, schedule_locked)
      (finish-Chosen q r (next_in_list true r n q) c (next_in_list-Chosen q r p n ts h))

pub schedule-IdleHeld :
    (q : RunQueue) (r p : ℕ)
    → IdleHeld q r p
    → Current q r
    → Returns (Scheduled q r (is_running (q.threads r).status)) (schedule_locked true r q)
unfolding schedule_locked
schedule-IdleHeld q r p h c =
    rw (idle_next q r p h, schedule_locked)
      (finish-Chosen q r (next_of_queue true r q) c (idle-Chosen q r p h))
