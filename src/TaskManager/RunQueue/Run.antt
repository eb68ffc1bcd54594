-- ===== src/TaskManager/RunQueue/Run.antt =====
-- `schedule` and `sleep_current_thread` on a valid queue.
use methylenix.Base.{
  ℕ, ◌≡◌, ◌≢◌, refl, sym, ap, ◌∙◌, true, false, some, List, ◌∷◌, ◌==◌, arith, Bool-cases,
  List-cases, inl, inr, ◌>>=◌, Returns, Returns-mono,
}
use mathlib.Core.Path.{subst}
use methylenix.TaskManager.Thread.{ThreadEntry, TaskStatus, is_running}
use methylenix.TaskManager.Slice.{HasSlice}
use methylenix.TaskManager.RunQueue.{RunQueue, front, set_thread}
use methylenix.TaskManager.RunQueue.Order.{queue_of}
use methylenix.TaskManager.RunQueue.Valid.{Holds, Ready, waiting, IsNamed, IsQueue, IsValid}
use methylenix.TaskManager.RunQueue.Retire.{set_thread_self, set_thread_ne}
use methylenix.TaskManager.RunQueue.Switch.{Scheduled, front_Holds}
use methylenix.TaskManager.RunQueue.Total.{schedule-Held, schedule-IdleHeld}
use methylenix.TaskManager.RunQueue.Schedule.{
  Switch, lock_thread, schedule_locked, schedule, sleep_current_thread,
}

-- The running thread is locked and has the status `s`; nothing else has changed.
module _ (q : RunQueue) (r : ℕ) (v : IsValid q r) (s : TaskStatus) (T : ℕ → ThreadEntry)
    (own : T r ≡ record (q.threads r) { is_locked = true; status = s })
    (others : (x : ℕ) → x ≢ r → T x ≡ q.threads x) where
  field_of :
      (x : ℕ) (f : ThreadEntry → ℕ)
      → f (record (q.threads r) { is_locked = true; status = s }) ≡ f (q.threads r)
      → f (T x) ≡ f (q.threads x)
  field_of x f e = elim (Bool-cases (x == r)) [
    | inl here ↦ let same : r ≡ x = ground arith in rw (sym same) (ap f own ∙ e)
    | inr other ↦ ap f (others x (λ same. absurd (ground arith)))
  ]

  same-IsQueue : IsQueue (record q { threads = T })
  same-IsQueue = record {
    run_sorted = v.queue.run_sorted;
    expired_sorted = v.queue.expired_sorted;
    once = v.queue.once;
    idle_apart = v.queue.idle_apart;
    some_threads = v.queue.some_threads;
    few_threads = v.queue.few_threads;
  }

  others_ready : (k x : ℕ) → Holds x (waiting q k) → x ≢ r → Ready k (T x)
  others_ready k x w ne = rw (others x ne) (v.ready.queued k x w)

  still-IsNamed : IsNamed (record q { threads = T })
  still-IsNamed x y kx ky ids pids =
      let tid : (z : ℕ) → (T z).thread_id ≡ (q.threads z).thread_id =
        (λ z. field_of z (λ e. e.thread_id) refl) in
      let pid : (z : ℕ) → (T z).pid ≡ (q.threads z).pid = (λ z. field_of z (λ e. e.pid) refl) in
      v.named x y kx ky (sym (tid x) ∙ ids ∙ tid y) (sym (pid x) ∙ pids ∙ pid y)

  own_slice : (p : ℕ) → Ready p (q.threads r) → HasSlice (T r).scheduling_class (T r).priority_level
  own_slice p ready = rw (own, ready.level) ready.slice

  held_first :
      (p : ℕ) (rest : List ℕ)
      → queue_of p q.run_list ≡ r ∷ rest
      → Returns
          (Scheduled (record q { threads = T }) r (is_running (T r).status))
          (schedule_locked true r (record q { threads = T }))
  held_first p rest first =
      let w : Holds r (waiting q p) = rw first (inl refl) in
      let ready = v.ready.queued p r w in
      let ne : r ≢ q.idle_thread = (λ e. v.queue.idle_apart p (rw e at w)) in
      schedule-Held (record q { threads = T }) r p rest
        (record {
          queue = same-IsQueue;
          others = others_ready;
          idle = (v.ready.idle.0, rw (others q.idle_thread (λ e. ne (sym e))) v.ready.idle.1);
          first = first;
          apart = λ k apart w'. apart (sym (v.ready.queued k r w').level ∙ ready.level);
          level = rw own ready.level;
          locked = rw own refl;
          slice = rw own ready.slice;
        })
        (record {
          known = inr (p, w);
          named = still-IsNamed;
          current = v.current;
          slice = own_slice p ready;
          own_idle = λ e. absurd (ne e);
          idle_ready =
              λ apart. (v.ready.idle.0, rw (others q.idle_thread (λ e. ne (sym e))) v.ready.idle.1);
        })

  held_idle :
      r ≡ q.idle_thread
      → is_running s ≡ true
      → Returns
          (Scheduled (record q { threads = T }) r (is_running (T r).status))
          (schedule_locked true r (record q { threads = T }))
  held_idle e runs =
      let (p, ready') = v.ready.idle in
      let ready : Ready p (q.threads r) = rw e ready' in
      schedule-IdleHeld (record q { threads = T }) r p
        (record {
          queue = same-IsQueue;
          others = λ k x w. others_ready k x w (λ same. v.queue.idle_apart k (rw (same ∙ e) at w));
          is_idle = e;
          level = rw own ready.level;
          slice = rw own ready.slice;
        })
        (record {
          known = inl e;
          named = still-IsNamed;
          current = v.current;
          slice = own_slice p ready;
          own_idle = λ same. rw own runs;
          idle_ready = λ ne. absurd (ne e);
        })

  as_before :
      (o : Switch × RunQueue)
      → Scheduled (record q { threads = T }) r (is_running (T r).status) o
      → Scheduled q r (is_running s) o
  as_before o d =
      let status : is_running (T r).status ≡ is_running s =
        ap (λ (e : ThreadEntry). is_running e.status) own in
      record {
        next = d.next;
        valid = d.valid;
        which = d.which;
        waits = λ x w. rw status at (d.waits x w);
        waited = λ x w why. d.waited x w (rw status why);
        same_number = d.same_number;
      }

  first-Scheduled :
      (p : ℕ)
      → front (queue_of p q.run_list) ≡ some r
      → Returns (Scheduled q r (is_running s)) (schedule_locked true r (record q { threads = T }))
  first-Scheduled p first = elim (List-cases (queue_of p q.run_list)) [
    | inl empty ↦ let e = ap front empty in absurd cc
    | inr (t, rest, some_thread) ↦
        let same : t ≡ r = (let e = ap front some_thread in cc) in
        Returns-mono (Scheduled (record q { threads = T }) r (is_running (T r).status))
          (Scheduled q r (is_running s)) (schedule_locked true r (record q { threads = T }))
          (held_first p rest (some_thread ∙ ap (λ u. u ∷ rest) same)) as_before
  ]

  begun-Scheduled :
      (r ≡ q.idle_thread → is_running s ≡ true)
      → Returns (Scheduled q r (is_running s)) (schedule_locked true r (record q { threads = T }))
  begun-Scheduled idle_runs = elim v.runs [
    | inl e ↦
        Returns-mono (Scheduled (record q { threads = T }) r (is_running (T r).status))
          (Scheduled q r (is_running s)) (schedule_locked true r (record q { threads = T }))
          (held_idle e (idle_runs e)) as_before
    | inr (p, first) ↦ first-Scheduled p first
  ]

running_Ready : (q : RunQueue) (r : ℕ) → IsValid q r → (p : ℕ) × Ready p (q.threads r)
running_Ready q r v = elim v.runs [
  | inl e ↦ (v.ready.idle.0, rw e v.ready.idle.1)
  | inr (p, first) ↦ (
    p,
    v.ready.queued p r (front_Holds r (queue_of p q.run_list) (queue_of p q.expired_list) first),
  )
]

-- In a valid queue with an object for a new list, `schedule` does not panic: every thread that waited for the
-- processor still waits, and no other does, the queue is valid again, and the thread that it has chosen runs.
pub schedule-Scheduled :
    (q : RunQueue) (r : ℕ) → IsValid q r → Returns (Scheduled q r true) (schedule true q)
unfolding schedule lock_thread
schedule-Scheduled q r v =
    let (p, ready) = running_Ready q r v in
    let e : ThreadEntry = record (q.threads r) { is_locked = true } in
    let done =
      begun-Scheduled q r v (q.threads r).status (set_thread r e q).threads (set_thread_self r e q)
        (λ x ne. set_thread_ne r x e q ne) (λ i. ready.runs) in
    subst (Returns (Scheduled q r true))
      (sym (ap (λ o. o >>= λ u. lock_thread u q >>= schedule_locked true u) v.current))
      (rw ready.free (rw ready.runs at done))

-- In a valid queue with an object for a new list, where another thread than the idle one runs,
-- `sleep_current_thread` with a status that is not to run does not panic: every other thread that waited for the
-- processor still waits, the running thread does not, the queue is valid again, and
-- the thread that it has chosen runs. `number_of_threads` is the same as before.
pub sleep_current_thread-Scheduled :
    (q : RunQueue) (r : ℕ) (s : TaskStatus)
    → IsValid q r
    → r ≢ q.idle_thread
    → is_running s ≡ false
    → Returns (Scheduled q r false) (sleep_current_thread true s q)
unfolding sleep_current_thread lock_thread
sleep_current_thread-Scheduled q r s v ne stops =
    let (p, ready) = running_Ready q r v in
    let e : ThreadEntry = record (q.threads r) { is_locked = true } in
    let q₁ : RunQueue = set_thread r e q in
    let e' : ThreadEntry = record (q₁.threads r) { status = s } in
    let own : (set_thread r e' q₁).threads r ≡ record e { status = s } =
      set_thread_self r e' q₁
      ∙ ap (λ (f : ThreadEntry). record f { status = s }) (set_thread_self r e q) in
    let done =
      begun-Scheduled q r v s (set_thread r e' q₁).threads own
        (λ x other. set_thread_ne r x e' q₁ other ∙ set_thread_ne r x e q other)
        (λ i. absurd (ne i)) in
    subst (Returns (Scheduled q r false))
      (sym (
        ap
          (λ o. o >>= λ u. lock_thread u q >>= λ q'.
            schedule_locked true u (set_thread u (record (q'.threads u) { status = s }) q'))
          v.current))
      (rw ready.free (rw stops at done))
