-- ===== src/TaskManager/RunQueue/Retire.antt =====
-- The running thread leaves its list, for the expired ones if it is still to run.
use methylenix.Base.{
  ℕ, ◌<◌, ◌^◌, ◌≡◌, ◌≢◌, refl, sym, ap, ◌∙◌, true, false, some, List, ◌∷◌, ◌==◌, if◌then◌else◌,
  arith, Bool-cases, inl, inr, Returns, Returns-cases, ==_ne,
}
use methylenix.TaskManager.Thread.{ThreadEntry, is_running, ok, set_time_slice}
use methylenix.TaskManager.Slice.{HasSlice, SliceOf, calculate_time_slice-SliceOf}
use methylenix.TaskManager.Thread.{calculate_time_slice}
use methylenix.TaskManager.RunQueue.{
  RunList, RunQueue, set_thread, last_entry, last_is_locked, remove_target_thread,
  set_thread_to_expired_thread, add_to_lists, remove_from_lists,
}
use methylenix.TaskManager.RunQueue.Order.{IsSorted, queue_of, joined, add_to_lists-Added}
use methylenix.TaskManager.RunQueue.Remove.{Removed, remove_from_lists-Removed}
use methylenix.TaskManager.RunQueue.Schedule.{retire, renew_time_slice}

pub set_thread_self : (t : ℕ) (e : ThreadEntry) (q : RunQueue) → (set_thread t e q).threads t ≡ e
set_thread_self t e q = let same : (t == t) ≡ true = ground arith in rw same refl

pub set_thread_ne :
    (t x : ℕ) (e : ThreadEntry) (q : RunQueue) → x ≢ t → (set_thread t e q).threads x ≡ q.threads x
set_thread_ne t x e q ne = rw (==_ne x t ne) refl

pub renew_time_slice_run :
    (t p : ℕ) (q : RunQueue)
    → (q.threads t).priority_level ≡ p
    → HasSlice (q.threads t).scheduling_class p
    → 0 < q.number_of_threads
    → q.number_of_threads < 2 ^ 32
    → (s : ℕ) × (renew_time_slice t q
        ≡ some (set_thread t (record (q.threads t) { time_slice = s }) q))
unfolding renew_time_slice set_time_slice
renew_time_slice_run t p q level slice some_threads few =
    let e : ThreadEntry = q.threads t in
    let (s, run, _) =
      Returns-cases SliceOf
        (calculate_time_slice e.scheduling_class e.priority_level q.number_of_threads 10)
        (calculate_time_slice-SliceOf e.scheduling_class e.priority_level q.number_of_threads
          (rw level slice) some_threads few) in
    (s, rw run refl)

remove_target_thread_run :
    (r p : ℕ) (q : RunQueue) (ls : List RunList)
    → (q.threads r).is_locked ≡ true
    → (q.threads r).priority_level ≡ p
    → remove_from_lists p r q.run_list ≡ ok ls
    → remove_target_thread r q ≡ some (ok (record q { run_list = ls }))
unfolding remove_target_thread
remove_target_thread_run r p q ls locked level run =
    rw (locked, level, run, remove_target_thread) refl

set_thread_to_expired_thread_run :
    (r p : ℕ) (q : RunQueue) (ls : List RunList)
    → (q.threads r).priority_level ≡ p
    → add_to_lists q.threads true p r q.expired_list ≡ some (ok ls)
    → set_thread_to_expired_thread true r q ≡ some (ok (record q { expired_list = ls }))
unfolding set_thread_to_expired_thread
set_thread_to_expired_thread_run r p q ls level run = rw (level, run) refl

pub record Retired (r p : ℕ) (rest : List ℕ) (q q' : RunQueue) : Type 0 where
  pub run_sorted : IsSorted 0 q'.run_list
  pub expired_sorted : IsSorted 0 q'.expired_list
  pub left : (k : ℕ) → queue_of k q'.run_list ≡ (if p == k then rest else queue_of k q.run_list)
  pub expired :
      (k : ℕ)
      → queue_of k q'.expired_list ≡ (
          if is_running (q.threads r).status
          then joined p r (λ j. queue_of j q.expired_list) k
          else queue_of k q.expired_list)
  pub kept : (x : ℕ) → x ≢ r → q'.threads x ≡ q.threads x
  pub own : (s : ℕ) × (q'.threads r ≡ record (q.threads r) { time_slice = s })
  pub same_number : q'.number_of_threads ≡ q.number_of_threads
  pub same_idle : q'.idle_thread ≡ q.idle_thread
  pub same_running : q'.running_thread ≡ q.running_thread

module _ (r p : ℕ) (rest : List ℕ) (q : RunQueue) (run_sorted : IsSorted 0 q.run_list)
    (expired_sorted : IsSorted 0 q.expired_list) (first : queue_of p q.run_list ≡ r ∷ rest)
    (level : (q.threads r).priority_level ≡ p) (locked : (q.threads r).is_locked ≡ true)
    (slice : HasSlice (q.threads r).scheduling_class p) (some_threads : 0 < q.number_of_threads)
    (few_threads : q.number_of_threads < 2 ^ 32) where
  removal : Removed 0 p r q.run_list
  removal =
      remove_from_lists-Removed 0 p r q.run_list run_sorted (λ empty. absurd (let e = first in cc))

  removal_queues :
      (k : ℕ) → queue_of k removal.lists ≡ (if p == k then rest else queue_of k q.run_list)
  removal_queues k = removal.queues k ∙ (elim (Bool-cases (p == k)) [
    | inl here ↦
        let same : p ≡ k = ground arith in
        let self : (r == r) ≡ true = ground arith in rw (here, sym same, first, self) refl
    | inr other ↦ rw other refl
  ])

  stopped : is_running (q.threads r).status ≡ false → Returns (Retired r p rest q) (retire true r q)
  unfolding retire
  stopped stops =
      rw (remove_target_thread_run r p q removal.lists locked level removal.removed, stops, retire)
        (record {
          run_sorted = removal.sorted;
          expired_sorted = expired_sorted;
          left = removal_queues;
          expired = λ k. rw stops refl;
          kept = λ x ne. refl;
          own = ((q.threads r).time_slice, refl);
          same_number = refl;
          same_idle = refl;
          same_running = refl;
        })

  requeued :
      (s : ℕ) (es : List RunList)
      → is_running (q.threads r).status ≡ true
      → renew_time_slice r (record q { run_list = removal.lists })
        ≡ some (
            set_thread r
              (record (q.threads r) { time_slice = s })
              (record q { run_list = removal.lists }))
      → add_to_lists
          (set_thread r (record (q.threads r) { time_slice = s }) q).threads
          true
          p
          r
          q.expired_list
        ≡ some (ok es)
      → retire true r q
        ≡ some
            (record (set_thread r
              (record (q.threads r) { time_slice = s })
              (record q { run_list = removal.lists })) { expired_list = es })
  unfolding retire
  requeued s es goes_on renew added =
      let level' : ((set_thread r (record (q.threads r) { time_slice = s })
              (record q { run_list = removal.lists })).threads
            r).priority_level
          ≡ p =
        ap (λ (e : ThreadEntry). e.priority_level)
          (set_thread_self r (record (q.threads r) { time_slice = s })
            (record q { run_list = removal.lists }))
        ∙ level in
      rw
        (
          remove_target_thread_run r p q removal.lists locked level removal.removed,
          goes_on,
          renew,
          set_thread_to_expired_thread_run r p
              (set_thread r (record (q.threads r) { time_slice = s })
                (record q { run_list = removal.lists }))
              es level' added,
          retire,
        )
        refl

  runs_on :
      is_running (q.threads r).status ≡ true
      → ((s : ℕ)
          → last_is_locked
              (set_thread r (record (q.threads r) { time_slice = s }) q).threads
              (last_entry (queue_of p q.expired_list))
            ≡ false)
      → Returns (Retired r p rest q) (retire true r q)
  runs_on goes_on free =
      let (s, renew) =
        renew_time_slice_run r p (record q { run_list = removal.lists }) level slice some_threads
          few_threads in
      let added =
        add_to_lists-Added (set_thread r (record (q.threads r) { time_slice = s }) q).threads 0 p r
          q.expired_list expired_sorted (omega arith) (free s) in
      rw (requeued s added.lists goes_on renew added.added) (record {
        run_sorted = removal.sorted;
        expired_sorted = added.sorted;
        left = removal_queues;
        expired = λ k. rw goes_on (added.queues k);
        kept = λ x ne. set_thread_ne r x (record (q.threads r) { time_slice = s }) q ne;
        own = (s, set_thread_self r (record (q.threads r) { time_slice = s }) q);
        same_number = refl;
        same_idle = refl;
        same_running = refl;
      })

  pub retire-Retired :
      ((s : ℕ)
        → is_running (q.threads r).status ≡ true
        → last_is_locked
            (set_thread r (record (q.threads r) { time_slice = s }) q).threads
            (last_entry (queue_of p q.expired_list))
          ≡ false)
      → Returns (Retired r p rest q) (retire true r q)
  retire-Retired free = elim (Bool-cases (is_running (q.threads r).status)) [
    | inl goes_on ↦ runs_on goes_on (λ s. free s goes_on)
    | inr stops ↦ stopped stops
  ]
