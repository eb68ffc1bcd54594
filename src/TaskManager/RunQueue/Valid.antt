-- ===== src/TaskManager/RunQueue/Valid.antt =====
-- The invariant of a run queue.
use methylenix.Base.{
  ℕ, ◌<◌, ◌^◌, ◌≡◌, refl, sym, true, false, Option, none, some, List, [], ◌∷◌, ◌++◌, inl, inr, ◌⊎◌,
}
use methylenix.TaskManager.Thread.{ThreadEntry, is_running}
use methylenix.TaskManager.Slice.{HasSlice}
use methylenix.TaskManager.RunQueue.{RunQueue, front, last_entry, last_is_locked}
use methylenix.TaskManager.RunQueue.Order.{IsSorted, queue_of}

abbrev pub Holds : ℕ → List ℕ → Type 0
Holds x [] = ⊥
Holds x (y ∷ ys) = (y ≡ x) ⊎ Holds x ys

abbrev pub NoDup : List ℕ → Type 0
NoDup [] = Unit
NoDup (x ∷ xs) = (Holds x xs → ⊥) × NoDup xs

pub Holds-append : (x : ℕ) (xs ys : List ℕ) → Holds x (xs ++ ys) → Holds x xs ⊎ Holds x ys
Holds-append x [] ys h = inr h
Holds-append x (y ∷ xs) ys (inl here) = inl (inl here)
Holds-append x (y ∷ xs) ys (inr there) = elim (Holds-append x xs ys there) [
  | inl a ↦ inl (inr a)
  | inr b ↦ inr b
]

pub append-Holds : (x : ℕ) (xs ys : List ℕ) → Holds x xs ⊎ Holds x ys → Holds x (xs ++ ys)
append-Holds x [] ys (inl h) = absurd h
append-Holds x [] ys (inr h) = h
append-Holds x (y ∷ xs) ys (inl (inl here)) = inl here
append-Holds x (y ∷ xs) ys (inl (inr there)) = inr (append-Holds x xs ys (inl there))
append-Holds x (y ∷ xs) ys (inr h) = inr (append-Holds x xs ys (inr h))

NoDup-snoc : (x : ℕ) (xs : List ℕ) → NoDup xs → (Holds x xs → ⊥) → NoDup (xs ++ x ∷ [])
NoDup-snoc x [] d out = (λ h. h, tt)
NoDup-snoc x (y ∷ xs) d out = (
  λ h. elim (Holds-append y xs (x ∷ []) h) [
    | inl there ↦ d.0 there
    | inr (inl here) ↦ out (inl (sym here))
    | inr (inr none_left) ↦ none_left
  ],
  NoDup-snoc x xs d.1 (λ h. out (inr h)),
)

-- The first thread may come last.
pub NoDup-turn : (x : ℕ) (xs : List ℕ) → NoDup (x ∷ xs) → NoDup (xs ++ x ∷ [])
NoDup-turn x xs d = NoDup-snoc x xs d.1 d.0

pub last_is_locked_all :
    (threads : ℕ → ThreadEntry) (ts : List ℕ)
    → ((x : ℕ) → Holds x ts → (threads x).is_locked ≡ false)
    → last_is_locked threads (last_entry ts) ≡ false
last_is_locked_all threads ts free = go (last_entry ts) (last_Holds ts)
  where
    LastHolds : List ℕ → Option ℕ → Type 0
    LastHolds us none = Unit
    LastHolds us (some u) = Holds u us

    last_Holds : (us : List ℕ) → LastHolds us (last_entry us)
    last_Holds [] = tt
    last_Holds (u ∷ us) = step u us (last_entry us) (last_Holds us)
      where
        step :
            (u : ℕ) (us : List ℕ) (o : Option ℕ)
            → LastHolds us o
            → LastHolds (u ∷ us) (elim o [ none ↦ some u | some w ↦ some w ])
        step u us none h = inl refl
        step u us (some w) h = inr h

    go : (o : Option ℕ) → LastHolds ts o → last_is_locked threads o ≡ false
    go none h = refl
    go (some u) h = free u h

-- A thread that may stand in the queue of a level.
pub record Ready (p : ℕ) (e : ThreadEntry) : Type 0 where
  pub level : e.priority_level ≡ p
  pub runs : is_running e.status ≡ true
  pub free : e.is_locked ≡ false
  pub slice : HasSlice e.scheduling_class p

-- The running thread is the idle one, or the first of the queue of its level.
abbrev pub Runs : RunQueue → ℕ → Type 0
Runs q r = (r ≡ q.idle_thread) ⊎ ((p : ℕ) × (front (queue_of p q.run_list) ≡ some r))

abbrev pub waiting : RunQueue → ℕ → List ℕ
waiting q p = queue_of p q.run_list ++ queue_of p q.expired_list

-- The queues without the state of the running thread.
pub record IsQueue (q : RunQueue) : Type 0 where
  pub run_sorted : IsSorted 0 q.run_list
  pub expired_sorted : IsSorted 0 q.expired_list
  pub once : (p : ℕ) → NoDup (waiting q p)
  pub idle_apart : (p : ℕ) → Holds q.idle_thread (waiting q p) → ⊥
  pub some_threads : 0 < q.number_of_threads
  pub few_threads : q.number_of_threads < 2 ^ 32

-- Every thread in the queues, and the idle thread, may run.
pub record AllReady (q : RunQueue) : Type 0 where
  pub queued : (p x : ℕ) → Holds x (waiting q p) → Ready p (q.threads x)
  pub idle : (p : ℕ) × Ready p (q.threads q.idle_thread)

-- A thread stands in a queue.
abbrev pub Waits : RunQueue → ℕ → Type 0
Waits q x = (p : ℕ) × Holds x (waiting q p)

abbrev pub Known : RunQueue → ℕ → Type 0
Known q x = (x ≡ q.idle_thread) ⊎ Waits q x

-- No two threads have the same identifiers.
abbrev pub IsNamed : RunQueue → Type 0
IsNamed q =
    (x y : ℕ)
    → Known q x
    → Known q y
    → (q.threads x).thread_id ≡ (q.threads y).thread_id
    → (q.threads x).pid ≡ (q.threads y).pid
    → x ≡ y

pub record IsValid (q : RunQueue) (r : ℕ) : Type 0 where
  pub queue : IsQueue q
  pub ready : AllReady q
  pub named : IsNamed q
  pub current : q.running_thread ≡ some r
  pub runs : Runs q r
