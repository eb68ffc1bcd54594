-- ===== src/TaskManager/RunQueue/Find.antt =====
-- The neighbours of the first thread of a queue.
use methylenix.Base.{
  ℕ, suc, ◌≡◌, ◌≢◌, refl, sym, ap, ◌∙◌, true, Option, none, some, List, [], ◌∷◌, ◌++◌, ◌==◌, arith,
  Bool-cases, inl, inr, ==_ne,
}
use methylenix.TaskManager.RunQueue.{RunList, front, or_else}
use methylenix.TaskManager.RunQueue.Order.{IsSorted, queue_of, queue_of-below}
use methylenix.TaskManager.RunQueue.Valid.{Holds}
use methylenix.TaskManager.RunQueue.Schedule.{next_of, prev_of, find_in, get_next, get_prev}

-- A queue of the lists behind the first is a queue of all.
pub queue_of-tail :
    (lo k x : ℕ) (l : RunList) (ls : List RunList)
    → IsSorted lo (l ∷ ls)
    → Holds x (queue_of k ls)
    → (queue_of k (l ∷ ls) ≡ queue_of k ls) × (l.priority_level ≢ k)
queue_of-tail lo k x l ls s h = elim (Bool-cases (l.priority_level == k)) [
  | inl here ↦
      let same : l.priority_level ≡ k = ground arith in
      let empty = queue_of-below (suc l.priority_level) k ls s.1 (omega arith) in
      absurd (rw empty at h)
  | inr there ↦ (rw there refl, λ same. absurd (ground arith))
]

-- What a search finds that answers only in a list that holds `r`.
module _ (f : List ℕ → Option ℕ) (r : ℕ)
    (miss : (ts : List ℕ) → (Holds r ts → ⊥) → f ts ≡ none) where
  pub find_in_none :
      (lo : ℕ) (ls ms : List RunList)
      → IsSorted lo ls
      → ((k : ℕ) → Holds r (queue_of k ls) → ⊥)
      → find_in f (ls ++ ms) ≡ find_in f ms
  find_in_none lo [] ms s out = refl
  find_in_none lo (l ∷ ls) ms s out =
      let self : (l.priority_level == l.priority_level) ≡ true = ground arith in
      let here : f l.thread_list ≡ none =
        miss l.thread_list (λ h. out l.priority_level (rw self h)) in
      rw here (
        find_in_none (suc l.priority_level) ls ms s.1
          (λ k h. out k (rw (queue_of-tail lo k r l ls s h).0 h)))

  pub find_in_front :
      (lo p : ℕ) (ts : List ℕ) (ls ms : List RunList)
      → IsSorted lo ls
      → queue_of p ls ≡ r ∷ ts
      → ((k : ℕ) → k ≢ p → Holds r (queue_of k ls) → ⊥)
      → find_in f ms ≡ none
      → find_in f (ls ++ ms) ≡ f (r ∷ ts)
  find_in_front lo p ts [] ms s first out rest = absurd cc
  find_in_front lo p ts (l ∷ ls) ms s first out rest =
      let self : (l.priority_level == l.priority_level) ≡ true = ground arith in
      elim (Bool-cases (l.priority_level == p)) [
        | inl here ↦
            let same : l.priority_level ≡ p = ground arith in
            let none_left : find_in f (ls ++ ms) ≡ none =
              find_in_none (suc l.priority_level) ls ms s.1 (λ k h.
                out k (λ e. (queue_of-tail lo k r l ls s h).1 (same ∙ sym e))
                  (rw (queue_of-tail lo k r l ls s h).0 h))
              ∙ rest in
            rw (none_left, rw here at first) (or_else_none (f (r ∷ ts)))
        | inr there ↦
            let miss_here : f l.thread_list ≡ none =
              miss l.thread_list
                (λ h. out l.priority_level (λ e. absurd (ground arith)) (rw self h)) in
            rw miss_here (
              find_in_front (suc l.priority_level) p ts ls ms s.1 (rw there at first)
                (λ k ne h. out k ne (rw (queue_of-tail lo k r l ls s h).0 h)) rest)
      ]
    where
      or_else_none : (o : Option ℕ) → or_else o none ≡ o
      or_else_none none = refl
      or_else_none (some t) = refl

next_of_miss : (r : ℕ) (ts : List ℕ) → (Holds r ts → ⊥) → next_of r ts ≡ none
unfolding next_of
next_of_miss r [] out = refl
next_of_miss r (u ∷ us) out =
    rw (==_ne u r (λ e. out (inl e))) (next_of_miss r us (λ h. out (inr h)))

prev_of_miss : (r : ℕ) (o : Option ℕ) (ts : List ℕ) → (Holds r ts → ⊥) → prev_of r o ts ≡ none
unfolding prev_of
prev_of_miss r o [] out = refl
prev_of_miss r o (u ∷ us) out =
    rw (==_ne u r (λ e. out (inl e))) (prev_of_miss r (some u) us (λ h. out (inr h)))

module _ (r : ℕ) (lo lo' : ℕ) (ls ms : List RunList) (s : IsSorted lo ls) (s' : IsSorted lo' ms)
    (out : (k : ℕ) → Holds r (queue_of k ms) → ⊥) where
  behind :
      (f : List ℕ → Option ℕ)
      → ((ts : List ℕ) → (Holds r ts → ⊥) → f ts ≡ none)
      → find_in f ms ≡ none
  behind f miss =
      ap (λ ns. find_in f ns) (sym (append-nil ms)) ∙ find_in_none f r miss lo' ms [] s' out
    where
      append-nil : (ns : List RunList) → ns ++ [] ≡ ns
      append-nil [] = refl
      append-nil (n ∷ ns) = ap (λ k. n ∷ k) (append-nil ns)

  -- The first thread of its queue has the second as its next one, and none before it.
  module _ (p : ℕ) (ts : List ℕ) (first : queue_of p ls ≡ r ∷ ts)
      (apart : (k : ℕ) → k ≢ p → Holds r (queue_of k ls) → ⊥) where
    pub get_next_front : get_next r (ls ++ ms) ≡ front ts
    unfolding get_next next_of
    get_next_front =
        let self : (r == r) ≡ true = ground arith in
        find_in_front (next_of r) r (next_of_miss r) lo p ts ls ms s first apart
          (behind (next_of r) (next_of_miss r))
        ∙ rw self refl

    pub get_prev_front : get_prev r (ls ++ ms) ≡ none
    unfolding get_prev prev_of
    get_prev_front =
        let self : (r == r) ≡ true = ground arith in
        find_in_front (prev_of r none) r (prev_of_miss r none) lo p ts ls ms s first apart
          (behind (prev_of r none) (prev_of_miss r none))
        ∙ rw self refl

  pub get_next_idle : ((k : ℕ) → Holds r (queue_of k ls) → ⊥) → get_next r (ls ++ ms) ≡ none
  unfolding get_next
  get_next_idle alone =
      find_in_none (next_of r) r (next_of_miss r) lo ls ms s alone
      ∙ behind (next_of r) (next_of_miss r)
