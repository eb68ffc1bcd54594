-- ===== src/TaskManager/RunQueue/Switch.antt =====
-- The end of `_schedule`: the invariant holds again.
use methylenix.Base.{
  ℕ, ◌≡◌, ◌≢◌, refl, sym, ap, ◌∙◌, Bool, true, false, not, ◌&&◌, Option, some, List, [], ◌∷◌, ◌++◌,
  ◌==◌, arith, Bool-cases, inl, inr, ◌⊎◌, Returns,
}
use methylenix.TaskManager.Thread.{ThreadEntry, is_running}
use methylenix.TaskManager.Slice.{HasSlice}
use methylenix.TaskManager.RunQueue.{RunQueue, front}
use methylenix.TaskManager.RunQueue.Order.{queue_of}
use methylenix.TaskManager.RunQueue.Valid.{
  Holds, Ready, waiting, Waits, Known, IsNamed, Runs, IsValid,
}
use methylenix.TaskManager.RunQueue.Keep.{Kept}
use methylenix.TaskManager.RunQueue.Schedule.{Switch, same_task, switch_to, finish, unlock_thread}

-- What `_schedule` leaves: a valid queue, in which the same threads wait, but for the running thread where it
-- does not stay.
pub record Scheduled (q : RunQueue) (r : ℕ) (stays : Bool) (out : Switch × RunQueue) : Type 0 where
  pub next : ℕ
  pub valid : IsValid out.1 next
  pub which :
      ((out.0 ≡ same_task) × (next ≡ r)) ⊎ ((b : Bool) × (out.0 ≡ switch_to r next b) × (next ≢ r))
  pub waits : (x : ℕ) → Waits out.1 x → Waits q x × ((x ≢ r) ⊎ (stays ≡ true))
  pub waited : (x : ℕ) → Waits q x → (x ≢ r) ⊎ (stays ≡ true) → Waits out.1 x
  pub same_number : out.1.number_of_threads ≡ q.number_of_threads

pub front_Holds : (x : ℕ) (ts us : List ℕ) → front ts ≡ some x → Holds x (ts ++ us)
front_Holds x [] us e = absurd cc
front_Holds x (t ∷ ts) us e = inl cc

-- The running thread `r`, before it leaves.
pub record Current (q : RunQueue) (r : ℕ) : Type 0 where
  pub known : Known q r
  pub named : IsNamed q
  pub current : q.running_thread ≡ some r
  pub slice : HasSlice (q.threads r).scheduling_class (q.threads r).priority_level
  pub own_idle : r ≡ q.idle_thread → is_running (q.threads r).status ≡ true
  pub idle_ready : r ≢ q.idle_thread → (p : ℕ) × Ready p (q.threads q.idle_thread)

module _ (q : RunQueue) (r : ℕ) (q' : RunQueue) (c : Current q r) (k : Kept q r q') where
  same_thread :
      (x : ℕ) (A : Type 0) (f : ThreadEntry → A)
      → f (record (q.threads r) { time_slice = k.own.0 }) ≡ f (q.threads r)
      → f (q'.threads x) ≡ f (q.threads x)
  same_thread x A f e = elim (Bool-cases (x == r)) [
    | inl here ↦ let same : r ≡ x = ground arith in rw (sym same) (ap f k.own.1 ∙ e)
    | inr other ↦ ap f (k.kept x (λ same. absurd (ground arith)))
  ]

  -- Unlocking changes no other part of a thread.
  after_unlock :
      (x : ℕ) (A : Type 0) (f : ThreadEntry → A)
      → f (record (q.threads r) { time_slice = k.own.0 }) ≡ f (q.threads r)
      → f (record (q'.threads r) { is_locked = false }) ≡ f (q'.threads r)
      → f ((unlock_thread r q').threads x) ≡ f (q.threads x)
  unfolding unlock_thread
  after_unlock x A f e e' = elim (Bool-cases (x == r)) [
    | inl here ↦
        let same : r ≡ x = ground arith in
        rw here (e' ∙ ap (λ y. f (q'.threads y)) same ∙ same_thread x A f e)
    | inr there ↦ rw there (same_thread x A f e)
  ]

  Known-before : (x : ℕ) → Known q' x → Known q x
  Known-before x (inl idle) = inl (idle ∙ k.same_idle)
  Known-before x (inr w) = inr (k.waits x w).0

  IsNamed-after : IsNamed (unlock_thread r q')
  unfolding unlock_thread
  IsNamed-after x y kx ky ids pids =
      let tid : (z : ℕ) → ((unlock_thread r q').threads z).thread_id ≡ (q.threads z).thread_id =
        (λ z. after_unlock z ℕ (λ e. e.thread_id) refl refl) in
      let pid : (z : ℕ) → ((unlock_thread r q').threads z).pid ≡ (q.threads z).pid =
        (λ z. after_unlock z ℕ (λ e. e.pid) refl refl) in
      c.named x y (Known-before x kx) (Known-before y ky) (sym (tid x) ∙ ids ∙ tid y)
        (sym (pid x) ∙ pids ∙ pid y)

  unlocked_Ready :
      (p x : ℕ)
      → (x ≢ r → Ready p (q'.threads x))
      → (x ≡ r → (is_running (q.threads r).status ≡ true) × ((q.threads r).priority_level ≡ p))
      → Ready p ((unlock_thread r q').threads x)
  unfolding unlock_thread
  unlocked_Ready p x other own = elim (Bool-cases (x == r)) [
    | inl here ↦
        let same : x ≡ r = ground arith in
        let (runs, level) = own same in
        rw (here, k.own.1)
          (record { level = level; runs = runs; free = refl; slice = rw level at c.slice })
    | inr there ↦ rw there (other (λ same. absurd (ground arith)))
  ]

  -- With every thread unlocked, and the next one running, the queue is valid.
  IsValid-after :
      (b : Bool) (o : Option ℕ) (next : ℕ)
      → o ≡ some next
      → Runs q' next
      → IsValid (record (unlock_thread r q') { should_reschedule = b; running_thread = o }) next
  unfolding unlock_thread
  IsValid-after b o next current runs = record {
    queue = record {
      run_sorted = k.queue.run_sorted;
      expired_sorted = k.queue.expired_sorted;
      once = k.queue.once;
      idle_apart = k.queue.idle_apart;
      some_threads = k.queue.some_threads;
      few_threads = k.queue.few_threads;
    };
    ready = record {
      queued = λ p x w. unlocked_Ready p x (k.others p x w) (λ same. own_Ready p (rw same at w));
      idle = idle_Ready;
    };
    named = IsNamed-after;
    current = current;
    runs = runs;
  }
    where
      own_Ready :
          (p : ℕ)
          → Holds r (waiting q' p)
          → (is_running (q.threads r).status ≡ true) × ((q.threads r).priority_level ≡ p)
      own_Ready p w = (
        elim (k.waits r (p, w)).1 [ inl ne ↦ absurd (ne refl) | inr goes_on ↦ goes_on ],
        k.own_level p w,
      )

      idle_Ready : (p : ℕ) × Ready p ((unlock_thread r q').threads q'.idle_thread)
      idle_Ready = elim (Bool-cases (r == q.idle_thread)) [
        | inl here ↦
            let same : r ≡ q.idle_thread = ground arith in
            (
              (q.threads r).priority_level,
              unlocked_Ready (q.threads r).priority_level q'.idle_thread
                  (λ ne. absurd (ne (k.same_idle ∙ sym same))) (λ e. (c.own_idle same, refl)),
            )
        | inr other ↦
            let (p, ready) = c.idle_ready (λ same. absurd (ground arith)) in
            (
              p,
              unlocked_Ready p q'.idle_thread
                  (λ ne. rw (k.kept q'.idle_thread ne, k.same_idle) ready)
                  (λ e. absurd (let f = k.same_idle in ground arith)),
            )
      ]

  next-Runs : (next : ℕ) → Runs q' next → is_running (q'.threads next).status ≡ true
  next-Runs next runs = elim (Bool-cases (next == r)) [
    | inl here ↦
        let same : next ≡ r = ground arith in
        rw same (same_thread r Bool (λ e. is_running e.status) refl ∙ own_runs same runs)
    | inr other ↦ other_runs (λ same. absurd (ground arith)) runs
  ]
    where
      own_runs : next ≡ r → Runs q' next → is_running (q.threads r).status ≡ true
      own_runs same (inl idle) = c.own_idle (sym same ∙ idle ∙ k.same_idle)
      own_runs same (inr (p, first)) =
          elim (k.waits r (
            p,
            front_Holds r (queue_of p q'.run_list) (queue_of p q'.expired_list) (rw same at first),
          )).1 [ inl ne ↦ absurd (ne refl) | inr goes_on ↦ goes_on ]

      other_runs : next ≢ r → Runs q' next → is_running (q'.threads next).status ≡ true
      other_runs ne (inl idle) =
          let (p, ready) = c.idle_ready (λ same. ne (idle ∙ k.same_idle ∙ sym same)) in
          rw (k.kept next ne, idle ∙ k.same_idle) ready.runs
      other_runs ne (inr (p, first)) =
          (k.others p next
            (front_Holds next (queue_of p q'.run_list) (queue_of p q'.expired_list) first) ne).runs

  next-Known : (next : ℕ) → Runs q' next → Known q next
  next-Known next (inl idle) = inl (idle ∙ k.same_idle)
  next-Known next (inr (p, first)) =
      inr
        (k.waits next
          (p, front_Holds next (queue_of p q'.run_list) (queue_of p q'.expired_list) first)).0

  pub finish-Scheduled :
      (next : ℕ)
      → Runs q' next
      → Returns (Scheduled q r (is_running (q.threads r).status)) (finish r (next, q'))
  unfolding finish unlock_thread
  finish-Scheduled next runs =
      let tid : (z : ℕ) → (q'.threads z).thread_id ≡ (q.threads z).thread_id =
        (λ z. same_thread z ℕ (λ e. e.thread_id) refl) in
      let pid : (z : ℕ) → (q'.threads z).pid ≡ (q.threads z).pid =
        (λ z. same_thread z ℕ (λ e. e.pid) refl) in
      elim (Bool-cases (
        ((q'.threads r).thread_id == (q'.threads next).thread_id)
        && ((q'.threads r).pid == (q'.threads next).pid))) [
          | inl both ↦
              let ids : (q'.threads r).thread_id ≡ (q'.threads next).thread_id = ground arith in
              let pids : (q'.threads r).pid ≡ (q'.threads next).pid = ground arith in
              let same : r ≡ next =
                c.named r next c.known (next-Known next runs) (sym (tid r) ∙ ids ∙ tid next)
                  (sym (pid r) ∙ pids ∙ pid next) in
              rw (next-Runs next runs, both)
                (record {
                  next = next;
                  valid =
                      IsValid-after q'.should_reschedule q'.running_thread next
                        (k.same_running ∙ c.current ∙ ap some same) runs;
                  which = inl (refl, sym same);
                  waits = k.waits;
                  waited = k.waited;
                  same_number = k.same_number;
                })
          | inr differ ↦
              rw (next-Runs next runs, differ)
                (record {
                  next = next;
                  valid = IsValid-after false (some next) next refl runs;
                  which = inr (
                    not ((q'.threads r).pid == (q'.threads next).pid),
                    refl,
                    λ same. absurd (
                        let e : next ≡ r = same in
                        let yes_both : (((q'.threads r).thread_id == (q'.threads next).thread_id)
                              && ((q'.threads r).pid == (q'.threads next).pid))
                            ≡ true =
                          rw e (ground arith) in
                        cc),
                  );
                  waits = k.waits;
                  waited = k.waited;
                  same_number = k.same_number;
                })
        ]
