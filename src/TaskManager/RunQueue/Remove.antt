-- ===== src/TaskManager/RunQueue/Remove.antt =====
-- A thread leaves the list of its priority.
use methylenix.Base.{
  ℕ, suc, ◌≡◌, ◌≢◌, refl, sym, false, List, [], ◌∷◌, ◌==◌, if◌then◌else◌, arith, Bool-cases, inl,
  inr,
}
use methylenix.TaskManager.Thread.{ok}
use methylenix.TaskManager.RunQueue.{RunList, without, remove_from_lists}
use methylenix.TaskManager.RunQueue.Order.{IsSorted, queue_of}

abbrev pub left_by : ℕ → ℕ → (ℕ → List ℕ) → ℕ → List ℕ
left_by priority t queue p = if priority == p then without t (queue p) else queue p

pub record Removed (lo priority t : ℕ) (ls : List RunList) : Type 0 where
  pub lists : List RunList
  pub removed : remove_from_lists priority t ls ≡ ok lists
  pub sorted : IsSorted lo lists
  pub queues : (p : ℕ) → queue_of p lists ≡ left_by priority t (λ k. queue_of k ls) p

-- In sorted lists whose queue of the priority is not empty, the thread leaves that queue, no other queue
-- changes, and the lists stay sorted.
pub remove_from_lists-Removed :
    (lo priority t : ℕ) (ls : List RunList)
    → IsSorted lo ls
    → queue_of priority ls ≢ []
    → Removed lo priority t ls
unfolding remove_from_lists
remove_from_lists-Removed lo priority t [] s some_thread = absurd (some_thread refl)
remove_from_lists-Removed lo priority t (l ∷ ls) s some_thread =
    elim (Bool-cases (l.priority_level == priority)) [
      | inl here ↦
          let same : l.priority_level ≡ priority = ground arith in
          record {
            lists = record l { thread_list = without t l.thread_list } ∷ ls;
            removed = rw here refl;
            sorted = s;
            queues = λ p. rw (sym same) (elim (Bool-cases (l.priority_level == p)) [
              | inl this ↦ rw this refl
              | inr other ↦ rw other refl
            ]);
          }
      | inr there ↦
          let rest =
            remove_from_lists-Removed (suc l.priority_level) priority t ls s.1
              (rw there at some_thread) in
          record {
            lists = l ∷ rest.lists;
            removed = rw (there, rest.removed) refl;
            sorted = (s.0, rest.sorted);
            queues = λ p. elim (Bool-cases (l.priority_level == p)) [
              | inl this ↦
                  let apart : (priority == p) ≡ false = ground arith in rw (this, apart) refl
              | inr other ↦ rw other (rest.queues p)
            ];
          }
    ]
