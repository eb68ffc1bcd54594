-- ===== src/TaskManager/RunQueue/Order.antt =====
-- The lists of a run queue as one first-in first-out queue for each priority.
use methylenix.Base.{
  ℕ, suc, ◌≤◌, ◌<◌, ◌≡◌, refl, sym, ap, true, false, Option, none, some, List, [], ◌∷◌, ◌++◌, ltb,
  ◌==◌, if◌then◌else◌, arith, Bool-cases, List-cases, inl, inr,
}
use native.Mathlib.Decide.{dec_lt}
use methylenix.TaskManager.Thread.{ThreadEntry, ok}
use methylenix.TaskManager.RunQueue.{
  RunList, front, add_to_lists, last_entry, last_is_locked, get_highest_priority_thread,
}

-- The levels grow from `lo` on.
abbrev pub IsSorted : ℕ → List RunList → Type 0
IsSorted lo [] = Unit
IsSorted lo (l ∷ ls) = (lo ≤ l.priority_level) × IsSorted (suc l.priority_level) ls

-- The threads of a priority, in order.
abbrev pub queue_of : ℕ → List RunList → List ℕ
queue_of p [] = []
queue_of p (l ∷ ls) = if l.priority_level == p then l.thread_list else queue_of p ls

abbrev pub joined : ℕ → ℕ → (ℕ → List ℕ) → ℕ → List ℕ
joined priority t queue p = if priority == p then queue p ++ t ∷ [] else queue p

pub record Added (threads : ℕ → ThreadEntry) (lo priority t : ℕ) (ls : List RunList) : Type 0 where
  pub lists : List RunList
  pub added : add_to_lists threads true priority t ls ≡ some (ok lists)
  pub sorted : IsSorted lo lists
  pub queues : (p : ℕ) → queue_of p lists ≡ joined priority t (λ k. queue_of k ls) p

pub queue_of-below : (lo p : ℕ) (ls : List RunList) → IsSorted lo ls → p < lo → queue_of p ls ≡ []
queue_of-below lo p [] s lt = refl
queue_of-below lo p (l ∷ ls) s lt =
    let e : (l.priority_level == p) ≡ false = ground arith in
    rw e (queue_of-below (suc l.priority_level) p ls s.1 (omega arith))

add_to_lists-here :
    (threads : ℕ → ThreadEntry) (lo t : ℕ) (l : RunList) (ls : List RunList)
    → IsSorted lo (l ∷ ls)
    → last_is_locked threads (last_entry l.thread_list) ≡ false
    → Added threads lo l.priority_level t (l ∷ ls)
unfolding add_to_lists
add_to_lists-here threads lo t l ls s free =
    let same : (l.priority_level == l.priority_level) ≡ true = ground arith in
    record {
      lists = record l { thread_list = l.thread_list ++ t ∷ [] } ∷ ls;
      added = rw (same, free) refl;
      sorted = s;
      queues = λ p. elim (Bool-cases (l.priority_level == p)) [
        | inl here ↦ rw here refl
        | inr other ↦ rw other refl
      ];
    }

add_to_lists-before :
    (threads : ℕ → ThreadEntry) (lo priority t : ℕ) (l : RunList) (ls : List RunList)
    → IsSorted lo (l ∷ ls)
    → lo ≤ priority
    → priority < l.priority_level
    → Added threads lo priority t (l ∷ ls)
unfolding add_to_lists
add_to_lists-before threads lo priority t l ls s from lt =
    let other : (l.priority_level == priority) ≡ false = ground arith in
    let less : ltb priority l.priority_level ≡ true = ground arith in
    record {
      lists = record { priority_level = priority; thread_list = t ∷ [] } ∷ l ∷ ls;
      added = rw (other, less) refl;
      sorted = (from, (lt, s.1));
      queues = λ p. elim (Bool-cases (priority == p)) [
        | inl here ↦
            let e : priority ≡ p = ground arith in
            let none_yet : queue_of p (l ∷ ls) ≡ [] =
              queue_of-below (suc priority) p (l ∷ ls) (lt, s.1) (omega arith) in
            rw here (sym (ap (λ q. q ++ t ∷ []) none_yet))
        | inr apart ↦ rw apart refl
      ];
    }

add_to_lists-behind :
    (threads : ℕ → ThreadEntry) (lo priority t : ℕ) (l : RunList) (ls : List RunList)
    → IsSorted lo (l ∷ ls)
    → l.priority_level < priority
    → Added threads (suc l.priority_level) priority t ls
    → Added threads lo priority t (l ∷ ls)
unfolding add_to_lists
add_to_lists-behind threads lo priority t l ls s lt rest =
    let other : (l.priority_level == priority) ≡ false = ground arith in
    let more : ltb priority l.priority_level ≡ false = ground arith in
    record {
      lists = l ∷ rest.lists;
      added = rw (other, more, rest.added) refl;
      sorted = (s.0, rest.sorted);
      queues = λ p. elim (Bool-cases (l.priority_level == p)) [
        | inl here ↦ let apart : (priority == p) ≡ false = ground arith in rw (here, apart) refl
        | inr there ↦ rw there (rest.queues p)
      ];
    }

-- In sorted lists, with an object for a new list and the last thread of the priority unlocked, the thread
-- comes to the end of the queue of its priority, no other queue changes, and the lists stay sorted.
pub add_to_lists-Added :
    (threads : ℕ → ThreadEntry) (lo priority t : ℕ) (ls : List RunList)
    → IsSorted lo ls
    → lo ≤ priority
    → last_is_locked threads (last_entry (queue_of priority ls)) ≡ false
    → Added threads lo priority t ls
unfolding add_to_lists
add_to_lists-Added threads lo priority t [] s from free = record {
  lists = record { priority_level = priority; thread_list = t ∷ [] } ∷ [];
  added = refl;
  sorted = (from, tt);
  queues = λ p. elim (Bool-cases (priority == p)) [
    | inl here ↦ rw here refl
    | inr other ↦ rw other refl
  ];
}
add_to_lists-Added threads lo priority t (l ∷ ls) s from free =
    elim (dec_lt l.priority_level priority) [
      | yes behind ↦
          let other : (l.priority_level == priority) ≡ false = ground arith in
          add_to_lists-behind threads lo priority t l ls s behind (
            add_to_lists-Added threads (suc l.priority_level) priority t ls s.1 behind
              (rw other at free))
      | no not_behind ↦ elim (dec_lt priority l.priority_level) [
        | yes before ↦ add_to_lists-before threads lo priority t l ls s from before
        | no not_before ↦
            let same : l.priority_level ≡ priority = omega arith in
            let same' : (l.priority_level == priority) ≡ true = ground arith in
            rw (sym same) (add_to_lists-here threads lo t l ls s (rw same' at free))
      ]
    ]

-- What `get_highest_priority_thread` answers.
abbrev pub Highest : List RunList → Option ℕ → Type 0
Highest ls none = (p : ℕ) → queue_of p ls ≡ []
Highest ls (some t) =
    (p : ℕ) × (front (queue_of p ls) ≡ some t) × ((k : ℕ) → k < p → queue_of k ls ≡ [])

Highest-cons :
    (lo : ℕ) (l : RunList) (ls : List RunList) (o : Option ℕ)
    → IsSorted lo (l ∷ ls)
    → l.thread_list ≡ []
    → Highest ls o
    → Highest (l ∷ ls) o
Highest-cons lo l ls none s empty h = λ p. elim (Bool-cases (l.priority_level == p)) [
  | inl here ↦ rw here empty
  | inr there ↦ rw there (h p)
]
Highest-cons lo l ls (some t) s empty (p, first, below) =
    let above : (l.priority_level == p) ≡ false = (elim (dec_lt l.priority_level p) [
      | yes lt ↦ ground arith
      | no le ↦
          let none_there = queue_of-below (suc l.priority_level) p ls s.1 (omega arith) in absurd cc
    ]) in
    (
      p,
      rw above first,
      λ k lt. elim (Bool-cases (l.priority_level == k)) [
        | inl here ↦ rw here empty
        | inr there ↦ rw there (below k lt)
      ],
    )

-- In sorted lists, `get_highest_priority_thread` gives the first thread of the lowest level that has one, or
-- none where all queues are empty.
pub get_highest_priority_thread-Highest :
    (lo : ℕ) (ls : List RunList) → IsSorted lo ls → Highest ls (get_highest_priority_thread ls)
unfolding get_highest_priority_thread
get_highest_priority_thread-Highest lo [] s = λ p. refl
get_highest_priority_thread-Highest lo (l ∷ ls) s = elim (List-cases l.thread_list) [
  | inl empty ↦ rw (ap front empty) (
      Highest-cons lo l ls (get_highest_priority_thread ls) s empty
        (get_highest_priority_thread-Highest (suc l.priority_level) ls s.1))
  | inr (t, ts, some_thread) ↦
      let same : (l.priority_level == l.priority_level) ≡ true = ground arith in
      rw (ap front some_thread) (
        l.priority_level,
        rw same (ap front some_thread),
        λ k lt. queue_of-below l.priority_level k (l ∷ ls) (omega arith, s.1) lt,
      )
]
