-- ===== src/TaskManager/RunQueue/Choose.antt =====
-- The thread that `_schedule` chooses when the running one leaves its queue.
use methylenix.Base.{
  ℕ, ◌≡◌, ◌≢◌, refl, sym, ap, ◌∙◌, Bool, true, false, Option, none, some, List, [], ◌∷◌, ◌++◌, ◌==◌,
  if◌then◌else◌, arith, Bool-cases, inl, inr, Returns, Returns-cases, ==_ne,
}
use methylenix.TaskManager.Thread.{ThreadEntry}
use methylenix.TaskManager.RunQueue.{RunQueue, front, set_thread, get_highest_priority_thread}
use methylenix.TaskManager.RunQueue.Order.{queue_of, Highest, get_highest_priority_thread-Highest}
use methylenix.TaskManager.RunQueue.Valid.{
  Holds, append-Holds, NoDup, Ready, Runs, last_is_locked_all,
}
use methylenix.TaskManager.RunQueue.Retire.{set_thread_ne, Retired, retire-Retired}
use methylenix.TaskManager.RunQueue.Find.{get_next_front, get_prev_front}
use methylenix.TaskManager.RunQueue.Keep.{Held, Kept, Kept-relist, Retired-Kept, Retired-unlock}
use methylenix.TaskManager.RunQueue.Schedule.{
  lock_thread, unlock_thread, retire, get_next, get_prev, get_next_thread, next_in_list,
  next_of_queue, or_idle,
}

append_nil : (xs : List ℕ) → xs ++ [] ≡ xs
append_nil [] = refl
append_nil (x ∷ xs) = ap (λ ys. x ∷ ys) (append_nil xs)

-- A choice of the next thread.
pub record Chosen (q : RunQueue) (r : ℕ) (o : ℕ × RunQueue) : Type 0 where
  pub kept : Kept q r o.1
  pub runs : Runs o.1 o.0

pub get_next_thread-Chosen :
    (q : RunQueue) (r : ℕ) (q' : RunQueue) → Kept q r q' → Chosen q r (get_next_thread q')
unfolding get_next_thread
get_next_thread-Chosen q r q' k =
    go (get_highest_priority_thread q'.run_list)
      (get_highest_priority_thread-Highest 0 q'.run_list k.queue.run_sorted)
  where
    swapped : RunQueue
    swapped = record q' { run_list = q'.expired_list; expired_list = q'.run_list }

    or_idle_runs : (o : Option ℕ) → Highest q'.expired_list o → Runs swapped (or_idle o swapped)
    or_idle_runs none h = inl refl
    or_idle_runs (some t) (p, first, below) = inr (p, first)

    go :
        (o : Option ℕ)
        → Highest q'.run_list o
        → Chosen q r (elim o [
          | some t ↦ (t, q')
          | none ↦ (or_idle (get_highest_priority_thread q'.expired_list) swapped, swapped)
        ])
    go (some t) (p, first, below) = record { kept = k; runs = inr (p, first) }
    go none empty = record {
      kept =
          Kept-relist q r q' swapped k.queue.expired_sorted k.queue.run_sorted
            (λ p. rw (empty p) (append_nil (queue_of p q'.expired_list))) refl refl refl refl k;
      runs =
          or_idle_runs (get_highest_priority_thread q'.expired_list)
            (get_highest_priority_thread-Highest 0 q'.expired_list k.queue.expired_sorted);
    }

-- The thread is not among the others of its level.
Held-apart :
    (q : RunQueue) (r p x : ℕ) (rest : List ℕ)
    → Held q r p rest
    → Holds x (rest ++ queue_of p q.expired_list)
    → x ≢ r
Held-apart q r p x rest h w e =
    let once : NoDup (r ∷ (rest ++ queue_of p q.expired_list)) = rw h.first at (h.queue.once p) in
    once.0 (rw (sym e) w)

Held-retire :
    (q : RunQueue) (r p : ℕ) (rest : List ℕ) (T : ℕ → ThreadEntry)
    → Held q r p rest
    → T r ≡ q.threads r
    → ((x : ℕ) → Holds x (queue_of p q.expired_list) → (T x).is_locked ≡ false)
    → Returns
        (Retired r p rest (record q { threads = T }))
        (retire true r (record q { threads = T }))
Held-retire q r p rest T h own free =
    retire-Retired r p rest (record q { threads = T }) h.queue.run_sorted h.queue.expired_sorted
      h.first (rw own h.level) (rw own h.locked) (rw own h.slice) h.queue.some_threads
      h.queue.few_threads
      (λ s runs.
        last_is_locked_all
          (set_thread r (record (T r) { time_slice = s }) (record q { threads = T })).threads
          (queue_of p q.expired_list)
          (λ x w.
            let ne =
              Held-apart q r p x rest h (append-Holds x rest (queue_of p q.expired_list) (inr w)) in
            rw (set_thread_ne r x (record (T r) { time_slice = s }) (record q { threads = T }) ne)
              (free x w)))

Held-not_idle : (q : RunQueue) (r p : ℕ) (rest : List ℕ) → Held q r p rest → r ≢ q.idle_thread
Held-not_idle q r p rest h e = h.queue.idle_apart p (rw (h.first, e) (inl refl))

not_expired :
    (q : RunQueue) (r p : ℕ) (rest : List ℕ)
    → Held q r p rest
    → (k : ℕ) → Holds r (queue_of k q.expired_list)
    → ⊥
not_expired q r p rest h k w = elim (Bool-cases (k == p)) [
  | inl here ↦
      let same : k ≡ p = ground arith in
      Held-apart q r p r rest h
        (append-Holds r rest (queue_of p q.expired_list) (inr (rw same at w))) refl
  | inr other ↦
      h.apart k (λ e. absurd (ground arith))
        (append-Holds r (queue_of k q.run_list) (queue_of k q.expired_list) (inr w))
]

no_prev :
    (q : RunQueue) (r p : ℕ) (rest : List ℕ)
    → Held q r p rest
    → get_prev r (q.run_list ++ q.expired_list) ≡ none
no_prev q r p rest h =
    get_prev_front r 0 0 q.run_list q.expired_list h.queue.run_sorted h.queue.expired_sorted
      (not_expired q r p rest h) p rest h.first
      (λ k ne w.
        h.apart k ne (append-Holds r (queue_of k q.run_list) (queue_of k q.expired_list) (inl w)))

pub next_is :
    (q : RunQueue) (r p : ℕ) (rest : List ℕ)
    → Held q r p rest
    → get_next r (q.run_list ++ q.expired_list) ≡ front rest
next_is q r p rest h =
    get_next_front r 0 0 q.run_list q.expired_list h.queue.run_sorted h.queue.expired_sorted
      (not_expired q r p rest h) p rest h.first
      (λ k ne w.
        h.apart k ne (append-Holds r (queue_of k q.run_list) (queue_of k q.expired_list) (inl w)))

recheck-Chosen :
    (q : RunQueue) (r n p : ℕ) (q' : RunQueue)
    → Kept q r q'
    → front (queue_of p q'.run_list) ≡ some n
    → Chosen q r (
        if q'.should_recheck_priority
        then (
          elim (get_highest_priority_thread q'.run_list) as (λ _. ℕ) [ some t ↦ t | none ↦ n ],
          record q' { should_recheck_priority = false },
        )
        else (n, q'))
recheck-Chosen q r n p q' k first = go q'.should_recheck_priority
  where
    highest :
        (o : Option ℕ)
        → Highest q'.run_list o
        → Runs
            (record q' { should_recheck_priority = false })
            (elim o as (λ _. ℕ) [ some t ↦ t | none ↦ n ])
    highest none empty = inr (p, first)
    highest (some t) (j, found, below) = inr (j, found)

    go :
        (b : Bool)
        → Chosen q r (
            if b
            then (
              elim (get_highest_priority_thread q'.run_list) as (λ _. ℕ) [ some t ↦ t | none ↦ n ],
              record q' { should_recheck_priority = false },
            )
            else (n, q'))
    go true = record {
      kept =
          Kept-relist q r q' (record q' { should_recheck_priority = false }) k.queue.run_sorted
            k.queue.expired_sorted (λ j. refl) refl refl refl refl k;
      runs =
          highest (get_highest_priority_thread q'.run_list)
            (get_highest_priority_thread-Highest 0 q'.run_list k.queue.run_sorted);
    }
    go false = record { kept = k; runs = inr (p, first) }

next_locked :
    (q : RunQueue) (r p n : ℕ) (ts : List ℕ)
    → Held q r p (n ∷ ts)
    → (x : ℕ) → Holds x (queue_of p q.expired_list)
    → ((set_thread n (record (q.threads n) { is_locked = true }) q).threads x).is_locked ≡ false
next_locked q r p n ts h x w =
    let once : NoDup (r ∷ (n ∷ ts ++ queue_of p q.expired_list)) = rw h.first at (h.queue.once p) in
    let ne : x ≢ n =
      (λ e. once.1.0 (append-Holds n ts (queue_of p q.expired_list) (inr (rw e at w)))) in
    rw (set_thread_ne n x (record (q.threads n) { is_locked = true }) q ne)
      (h.others p x (append-Holds x (queue_of p q.run_list) (queue_of p q.expired_list) (inr w)) (
        Held-apart q r p x (n ∷ ts) h
          (append-Holds x (n ∷ ts) (queue_of p q.expired_list) (inr w)))).free

pub next_in_list-Chosen :
    (q : RunQueue) (r p n : ℕ) (ts : List ℕ)
    → Held q r p (n ∷ ts)
    → Returns (Chosen q r) (next_in_list true r n q)
unfolding next_in_list lock_thread unlock_thread
next_in_list-Chosen q r p n ts h =
    let ne : n ≢ r = Held-apart q r p n (n ∷ ts) h (inl refl) in
    let ready : Ready p (q.threads n) = h.others p n (rw h.first (inr (inl refl))) ne in
    let some_thread : (r == q.idle_thread) ≡ false =
      ==_ne r q.idle_thread (Held-not_idle q r p (n ∷ ts) h) in
    let T : ℕ → ThreadEntry =
      (set_thread n (record (q.threads n) { is_locked = true }) q).threads in
    let free : (x : ℕ) → Holds x (queue_of p q.expired_list) → (T x).is_locked ≡ false =
      next_locked q r p n ts h in
    let (q₃, run, t) =
      Returns-cases (Retired r p (n ∷ ts) (record q { threads = T }))
        (retire true r (record q { threads = T }))
        (Held-retire q r p (n ∷ ts) T h
          (set_thread_ne n r (record (q.threads n) { is_locked = true }) q (λ e. ne (sym e)))
          free) in
    let t' = Retired-unlock r p n (n ∷ ts) q q₃ ne ready.free t in
    let k =
      Retired-Kept q (set_thread n (record (q₃.threads n) { is_locked = false }) q₃) r p (n ∷ ts) h
        t' in
    let self : (p == p) ≡ true = ground arith in
    rw (some_thread, ready.free, no_prev q r p (n ∷ ts) h, run)
      (recheck-Chosen q r n p (set_thread n (record (q₃.threads n) { is_locked = false }) q₃) k
        (ap front (t.left p) ∙ rw self refl))

pub next_of_queue-Chosen :
    (q : RunQueue) (r p : ℕ) → Held q r p [] → Returns (Chosen q r) (next_of_queue true r q)
unfolding next_of_queue
next_of_queue-Chosen q r p h =
    let some_thread : (r == q.idle_thread) ≡ false =
      ==_ne r q.idle_thread (Held-not_idle q r p [] h) in
    let free : (x : ℕ) → Holds x (queue_of p q.expired_list) → (q.threads x).is_locked ≡ false =
      (λ x w.
        (h.others p x (append-Holds x (queue_of p q.run_list) (queue_of p q.expired_list) (inr w))
          (Held-apart q r p x [] h w)).free) in
    let (q', run, t) =
      Returns-cases (Retired r p [] q) (retire true r q)
        (Held-retire q r p [] q.threads h refl free) in
    rw (some_thread, no_prev q r p [] h, run)
      (get_next_thread-Chosen q r q' (Retired-Kept q q' r p [] h t))
