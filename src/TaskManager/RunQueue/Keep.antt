-- ===== src/TaskManager/RunQueue/Keep.antt =====
-- The invariant while the running thread leaves its queue.
use methylenix.Base.{
  ℕ, ◌≡◌, ◌≢◌, refl, sym, ap, ◌∙◌, Bool, true, false, List, [], ◌∷◌, ◌++◌, ◌==◌, if◌then◌else◌,
  arith, Bool-cases, inl, inr, ◌⊎◌, append_assoc,
}
use methylenix.TaskManager.Thread.{ThreadEntry, is_running}
use methylenix.TaskManager.Slice.{HasSlice}
use methylenix.TaskManager.RunQueue.{RunQueue, set_thread}
use methylenix.TaskManager.RunQueue.Order.{IsSorted, queue_of, joined}
use methylenix.TaskManager.RunQueue.Valid.{
  Holds, NoDup, Holds-append, append-Holds, NoDup-turn, Ready, waiting, IsQueue, Waits,
}
use methylenix.TaskManager.RunQueue.Retire.{Retired, set_thread_self, set_thread_ne}

abbrev pub moved : Bool → ℕ → List ℕ → List ℕ
moved true r xs = xs ++ r ∷ []
moved false r xs = xs

moved-NoDup : (b : Bool) (r : ℕ) (xs : List ℕ) → NoDup (r ∷ xs) → NoDup (moved b r xs)
moved-NoDup true r xs d = NoDup-turn r xs d
moved-NoDup false r xs d = d.1

moved-Holds :
    (b : Bool) (r x : ℕ) (xs : List ℕ)
    → NoDup (r ∷ xs)
    → Holds x (moved b r xs)
    → Holds x (r ∷ xs) × ((x ≢ r) ⊎ (b ≡ true))
moved-Holds true r x xs d h = (
  elim (Holds-append x xs (r ∷ []) h) [
    | inl there ↦ inr there
    | inr (inl here) ↦ inl here
    | inr (inr none_left) ↦ absurd none_left
  ],
  inr refl,
)
moved-Holds false r x xs d h = (inr h, inl (λ e. d.0 (rw (sym e) h)))

Holds-moved :
    (b : Bool) (r x : ℕ) (xs : List ℕ)
    → Holds x (r ∷ xs)
    → (x ≢ r) ⊎ (b ≡ true)
    → Holds x (moved b r xs)
Holds-moved true r x xs (inl here) w = append-Holds x xs (r ∷ []) (inr (inl here))
Holds-moved true r x xs (inr there) w = append-Holds x xs (r ∷ []) (inl there)
Holds-moved false r x xs (inl here) (inl ne) = absurd (ne (sym here))
Holds-moved false r x xs (inl here) (inr stays) = absurd cc
Holds-moved false r x xs (inr there) w = there

-- The state in `_schedule`: the running thread, first in the queue of its level, is locked; its status is
-- any.
pub record Held (q : RunQueue) (r p : ℕ) (rest : List ℕ) : Type 0 where
  pub queue : IsQueue q
  pub others : (k x : ℕ) → Holds x (waiting q k) → x ≢ r → Ready k (q.threads x)
  pub idle : (k : ℕ) × Ready k (q.threads q.idle_thread)
  pub first : queue_of p q.run_list ≡ r ∷ rest
  pub apart : (k : ℕ) → k ≢ p → Holds r (waiting q k) → ⊥
  pub level : (q.threads r).priority_level ≡ p
  pub locked : (q.threads r).is_locked ≡ true
  pub slice : HasSlice (q.threads r).scheduling_class p

-- The state once the running thread has left.
pub record Kept (q : RunQueue) (r : ℕ) (q' : RunQueue) : Type 0 where
  pub queue : IsQueue q'
  pub others : (k x : ℕ) → Holds x (waiting q' k) → x ≢ r → Ready k (q'.threads x)
  pub waits :
      (x : ℕ) → Waits q' x → Waits q x × ((x ≢ r) ⊎ (is_running (q.threads r).status ≡ true))
  pub waited : (x : ℕ) → Waits q x → (x ≢ r) ⊎ (is_running (q.threads r).status ≡ true) → Waits q' x
  pub own_level : (k : ℕ) → Holds r (waiting q' k) → (q.threads r).priority_level ≡ k
  pub kept : (x : ℕ) → x ≢ r → q'.threads x ≡ q.threads x
  pub own : (s : ℕ) × (q'.threads r ≡ record (q.threads r) { time_slice = s })
  pub same_number : q'.number_of_threads ≡ q.number_of_threads
  pub same_idle : q'.idle_thread ≡ q.idle_thread
  pub same_running : q'.running_thread ≡ q.running_thread

module _ (q q' : RunQueue) (r p : ℕ) (rest : List ℕ) (h : Held q r p rest)
    (t : Retired r p rest q q') where
  behind : List ℕ
  behind = rest ++ queue_of p q.expired_list

  waiting_there : waiting q p ≡ r ∷ (rest ++ queue_of p q.expired_list)
  waiting_there = rw h.first refl

  waiting_after :
      (b : Bool)
      → is_running (q.threads r).status ≡ b
      → waiting q' p ≡ moved b r (rest ++ queue_of p q.expired_list)
  waiting_after true e =
      let self : (p == p) ≡ true = ground arith in
      rw (t.left p, t.expired p, e, self)
        (sym (append_assoc rest (queue_of p q.expired_list) (r ∷ [])))
  waiting_after false e =
      let self : (p == p) ≡ true = ground arith in rw (t.left p, t.expired p, e, self) refl

  waiting_other : (k : ℕ) → (p == k) ≡ false → waiting q' k ≡ waiting q k
  waiting_other k apart =
      rw (t.left k, apart)
        (ap (λ e. queue_of k q.run_list ++ e)
          (expired_other (is_running (q.threads r).status) (t.expired k)))
    where
      expired_other :
          (b : Bool)
          → queue_of k q'.expired_list ≡ (
              if b
              then joined p r (λ j. queue_of j q.expired_list) k
              else queue_of k q.expired_list)
          → queue_of k q'.expired_list ≡ queue_of k q.expired_list
      expired_other true e = e ∙ rw apart refl
      expired_other false e = e

  once_at : NoDup (r ∷ (rest ++ queue_of p q.expired_list))
  once_at = rw waiting_there at (h.queue.once p)

  -- A thread that waits afterwards has waited at the same level.
  before :
      (k x : ℕ)
      → Holds x (waiting q' k)
      → Holds x (waiting q k) × ((x ≢ r) ⊎ (is_running (q.threads r).status ≡ true))
  before k x w = elim (Bool-cases (p == k)) [
    | inl here ↦
        let same : p ≡ k = ground arith in
        let (holds, why) =
          moved-Holds (is_running (q.threads r).status) r x (rest ++ queue_of p q.expired_list)
            once_at (rw (sym same, waiting_after (is_running (q.threads r).status) refl) at w) in
        (rw (sym same, waiting_there) holds, why)
    | inr other ↦
        let w' : Holds x (waiting q k) = rw (waiting_other k other) at w in
        (w', inl (λ e. h.apart k (λ same. absurd (ground arith)) (rw e at w')))
  ]

  after :
      (k x : ℕ)
      → Holds x (waiting q k)
      → (x ≢ r) ⊎ (is_running (q.threads r).status ≡ true)
      → Holds x (waiting q' k)
  after k x w why = elim (Bool-cases (p == k)) [
    | inl here ↦
        let same : p ≡ k = ground arith in
        rw (sym same, waiting_after (is_running (q.threads r).status) refl)
          (Holds-moved (is_running (q.threads r).status) r x (rest ++ queue_of p q.expired_list)
            (rw (sym same, waiting_there) at w) why)
    | inr other ↦ rw (waiting_other k other) w
  ]

  pub Retired-Kept : Kept q r q'
  Retired-Kept = record {
    queue = record {
      run_sorted = t.run_sorted;
      expired_sorted = t.expired_sorted;
      once = λ k. elim (Bool-cases (p == k)) [
        | inl here ↦
            let same : p ≡ k = ground arith in
            rw (sym same, waiting_after (is_running (q.threads r).status) refl)
              (moved-NoDup (is_running (q.threads r).status) r (rest ++ queue_of p q.expired_list)
                once_at)
        | inr other ↦ rw (waiting_other k other) (h.queue.once k)
      ];
      idle_apart = λ k w. h.queue.idle_apart k (rw t.same_idle at (before k q'.idle_thread w).0);
      some_threads = rw t.same_number h.queue.some_threads;
      few_threads = rw t.same_number h.queue.few_threads;
    };
    others = λ k x w ne. rw (t.kept x ne) (h.others k x (before k x w).0 ne);
    waits = λ x w. ((w.0, (before w.0 x w.1).0), (before w.0 x w.1).1);
    waited = λ x w why. (w.0, after w.0 x w.1 why);
    own_level = λ k w. elim (Bool-cases (p == k)) [
      | inl here ↦ h.level ∙ ground arith
      | inr other ↦ absurd (h.apart k (λ same. absurd (ground arith)) (before k r w).0)
    ];
    same_running = t.same_running;
    kept = t.kept;
    own = t.own;
    same_number = t.same_number;
    same_idle = t.same_idle;
  }

-- The lists may change as long as the same threads wait at each level.
pub Kept-relist :
    (q : RunQueue) (r : ℕ) (q' q'' : RunQueue)
    → IsSorted 0 q''.run_list
    → IsSorted 0 q''.expired_list
    → ((k : ℕ) → waiting q'' k ≡ waiting q' k)
    → q''.threads ≡ q'.threads
    → q''.number_of_threads ≡ q'.number_of_threads
    → q''.idle_thread ≡ q'.idle_thread
    → q''.running_thread ≡ q'.running_thread
    → Kept q r q'
    → Kept q r q''
Kept-relist q r q' q'' run expired same threads number idle running k = record {
  queue = record {
    run_sorted = run;
    expired_sorted = expired;
    once = λ p. rw (same p) (k.queue.once p);
    idle_apart = λ p w. k.queue.idle_apart p (rw (same p, idle) at w);
    some_threads = rw number k.queue.some_threads;
    few_threads = rw number k.queue.few_threads;
  };
  others = λ p x w ne. rw threads (k.others p x (rw (same p) at w) ne);
  waits = λ x (p, w). k.waits x (p, (rw (same p) at w));
  waited = λ x w why. let (p, w') = k.waited x w why in (p, rw (same p) w');
  own_level = λ p w. k.own_level p (rw (same p) at w);
  kept = λ x ne. rw threads (k.kept x ne);
  own = (k.own.0, rw threads k.own.1);
  same_number = number ∙ k.same_number;
  same_idle = idle ∙ k.same_idle;
  same_running = running ∙ k.same_running;
}

unlocked : (e : ThreadEntry) → e.is_locked ≡ false → record e { is_locked = false } ≡ e
unlocked e free = λ i. record e { is_locked = sym free i }

-- The lock of the thread that follows is held meanwhile.
pub Retired-unlock :
    (r p n : ℕ) (rest : List ℕ) (q q' : RunQueue)
    → n ≢ r
    → (q.threads n).is_locked ≡ false
    → Retired r p rest (set_thread n (record (q.threads n) { is_locked = true }) q) q'
    → Retired r p rest q (set_thread n (record (q'.threads n) { is_locked = false }) q')
Retired-unlock r p n rest q q' ne free t =
    let held : RunQueue = set_thread n (record (q.threads n) { is_locked = true }) q in
    let own_before : held.threads r ≡ q.threads r =
      set_thread_ne n r (record (q.threads n) { is_locked = true }) q (λ e. ne (sym e)) in
    record {
      run_sorted = t.run_sorted;
      expired_sorted = t.expired_sorted;
      left = t.left;
      expired = λ k. rw own_before at (t.expired k);
      kept = λ x apart. elim (Bool-cases (x == n)) [
        | inl here ↦
            let same : n ≡ x = ground arith in
            rw here (
              ap (λ (e : ThreadEntry). record e { is_locked = false })
                (t.kept n ne ∙ set_thread_self n (record (q.threads n) { is_locked = true }) q)
              ∙ unlocked (q.threads n) free
              ∙ ap (λ y. q.threads y) same)
        | inr other ↦ rw other (
            t.kept x apart
            ∙ set_thread_ne n x (record (q.threads n) { is_locked = true }) q
                (λ e. absurd (ground arith)))
      ];
      own = (
        t.own.0,
        set_thread_ne n r (record (q'.threads n) { is_locked = false }) q' (λ e. ne (sym e))
            ∙ t.own.1
            ∙ ap (λ (e : ThreadEntry). record e { time_slice = t.own.0 }) own_before,
      );
      same_number = t.same_number;
      same_idle = t.same_idle;
      same_running = t.same_running;
    }
