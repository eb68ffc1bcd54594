-- ===== src/TaskManager/Tests.antt =====
-- A run queue with two threads of one level, one of another that has expired, and the idle thread.
use methylenix.Base.{
  ℕ, zero, suc, ◌≡◌, ◌≢◌, refl, sym, Bool, true, false, some, [], ◌∷◌, ◌==◌, arith, Bool-cases, inl,
  inr, Returns, ◌∙◌,
}
use methylenix.TaskManager.Thread.{
  ThreadEntry, TaskStatus, kernel_thread, user_thread, calculate_time_slice,
}
use methylenix.TaskManager.Slice.{IsShare, calculate_time_slice-IsShare}
use methylenix.TaskManager.RunQueue.{RunQueue, add_thread, get_highest_priority_thread}
use methylenix.TaskManager.RunQueue.Order.{Highest, get_highest_priority_thread-Highest}
use methylenix.TaskManager.RunQueue.Valid.{Holds, NoDup, Ready, waiting, Known, IsValid}
use methylenix.TaskManager.RunQueue.Switch.{Scheduled}
use methylenix.TaskManager.RunQueue.Schedule.{schedule, sleep_current_thread}
use methylenix.TaskManager.RunQueue.Run.{schedule-Scheduled, sleep_current_thread-Scheduled}
use methylenix.TaskManager.RunQueue.Join.{JoinedIf, add_thread-Joined}

abbrev entry : ℕ → ℕ → Bool → ThreadEntry
entry id level held = record {
  is_locked = held;
  time_slice = 2;
  status = TaskStatus.running;
  thread_id = id;
  pid = 0;
  priority_level = level;
  scheduling_class = kernel_thread;
}

abbrev four_threads : ℕ → ThreadEntry
four_threads zero = entry 0 255 false
four_threads (suc zero) = entry 1 100 false
four_threads (suc (suc zero)) = entry 2 100 false
four_threads (suc (suc (suc zero))) = entry 3 110 false
four_threads (suc (suc (suc (suc i)))) = entry 4 90 true

abbrev three_waiting : RunQueue
three_waiting = record {
  run_list = record { priority_level = 100; thread_list = 1 ∷ 2 ∷ [] } ∷ [];
  expired_list = record { priority_level = 110; thread_list = 3 ∷ [] } ∷ [];
  idle_thread = 0;
  running_thread = some 1;
  should_recheck_priority = false;
  should_reschedule = true;
  number_of_threads = 4;
  threads = four_threads;
}

-- Where each thread waits.
data Place : ℕ → ℕ → Type 0 where
  first : Place 100 1
  second : Place 100 2
  third : Place 110 3

place_of : (p x : ℕ) → Holds x (waiting three_waiting p) → Place p x
place_of p x h = elim (Bool-cases (100 == p)) [
  | inl here ↦
      let at_100 : 100 ≡ p = ground arith in
      let h' : Holds x (1 ∷ 2 ∷ []) = rw (sym at_100) at h in rw (sym at_100) (at_low h')
  | inr other ↦ elim (Bool-cases (110 == p)) [
    | inl here ↦
        let at_110 : 110 ≡ p = ground arith in
        let h' : Holds x (3 ∷ []) = rw (sym at_110) at h in rw (sym at_110) (at_high h')
    | inr neither ↦ absurd (rw (other, neither) at h)
  ]
]
  where
    at_low : Holds x (1 ∷ 2 ∷ []) → Place 100 x
    at_low (inl e) = rw (sym e) first
    at_low (inr (inl e)) = rw (sym e) second
    at_low (inr (inr none_left)) = absurd none_left

    at_high : Holds x (3 ∷ []) → Place 110 x
    at_high (inl e) = rw (sym e) third
    at_high (inr none_left) = absurd none_left

at_place :
    (p x : ℕ) → Place p x → Ready p (four_threads x) × (four_threads x).thread_id ≡ x × (x ≢ 0)
at_place p x first = (
  record { level = refl; runs = refl; free = refl; slice = inr (omega arith, omega arith) },
  refl,
  λ e. omega arith,
)
at_place p x second = (
  record { level = refl; runs = refl; free = refl; slice = inr (omega arith, omega arith) },
  refl,
  λ e. omega arith,
)
at_place p x third = (
  record { level = refl; runs = refl; free = refl; slice = inr (omega arith, omega arith) },
  refl,
  λ e. omega arith,
)

id_of : (x : ℕ) → Known three_waiting x → (four_threads x).thread_id ≡ x
id_of x (inl idle) = rw idle refl
id_of x (inr (p, h)) = (at_place p x (place_of p x h)).1

no_idle : (p : ℕ) → Holds 0 (waiting three_waiting p) → ⊥
no_idle p h = (at_place p 0 (place_of p 0 h)).2 refl

not_queued : {p x : ℕ} → Place p x → x ≢ 4
not_queued first e = omega arith
not_queued second e = omega arith
not_queued third e = omega arith

queue_once : (p : ℕ) → NoDup (waiting three_waiting p)
queue_once p = elim (Bool-cases (100 == p)) [
  | inl here ↦
      let at_100 : 100 ≡ p = ground arith in
      rw (sym at_100)
        ((λ h. elim h [ inl e ↦ omega arith | inr none_left ↦ absurd none_left ]), ((λ h. h), tt))
  | inr other ↦ elim (Bool-cases (110 == p)) [
    | inl here ↦ let at_110 : 110 ≡ p = ground arith in rw (sym at_110) ((λ h. h), tt)
    | inr neither ↦ rw (other, neither) tt
  ]
]

three_waiting-IsValid : IsValid three_waiting 1
three_waiting-IsValid = record {
  queue = record {
    run_sorted = (omega arith, tt);
    expired_sorted = (omega arith, tt);
    once = queue_once;
    idle_apart = no_idle;
    some_threads = omega arith;
    few_threads = omega arith;
  };
  ready = record {
    queued = λ p x h. (at_place p x (place_of p x h)).0;
    idle = (255, record { level = refl; runs = refl; free = refl; slice = inl refl });
  };
  named = λ x y kx ky ids pids. sym (id_of x kx) ∙ ids ∙ id_of y ky;
  current = refl;
  runs = inr (100, refl);
}

schedule-Scheduled_example : Returns (Scheduled three_waiting 1 true) (schedule true three_waiting)
schedule-Scheduled_example = schedule-Scheduled three_waiting 1 three_waiting-IsValid

sleep_current_thread-Scheduled_example :
    Returns
      (Scheduled three_waiting 1 false)
      (sleep_current_thread true TaskStatus.interruptible three_waiting)
sleep_current_thread-Scheduled_example =
    sleep_current_thread-Scheduled three_waiting 1 TaskStatus.interruptible three_waiting-IsValid
      (λ e. omega arith) refl

-- A thread of a higher priority than the running one does not ask for another schedule.
add_thread-Joined_example :
    Returns (JoinedIf three_waiting 4 false) (add_thread true 4 three_waiting)
add_thread-Joined_example =
    add_thread-Joined three_waiting 1 4 refl (omega arith, tt)
      (λ p h. not_queued (place_of p 4 h) refl) refl refl (inr (omega arith, omega arith))
      (omega arith)

get_highest_priority_thread-Highest_example :
    Highest three_waiting.run_list (get_highest_priority_thread three_waiting.run_list)
get_highest_priority_thread-Highest_example =
    get_highest_priority_thread-Highest 0 three_waiting.run_list (omega arith, tt)

calculate_time_slice-IsShare_example :
    Returns (IsShare 4000 3) (calculate_time_slice user_thread 120 3 10)
calculate_time_slice-IsShare_example =
    calculate_time_slice-IsShare user_thread 120 3 (omega arith, omega arith) (omega arith)
      (omega arith)
