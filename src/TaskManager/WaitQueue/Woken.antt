-- ===== src/TaskManager/WaitQueue/Woken.antt =====
-- The wait queue wakes its threads in the order in which they came.
use mathlib.Core.Path.{subst}
use methylenix.Base.{
  ℕ, zero, suc, ◌<◌, ◌≤◌, ◌≡◌, refl, sym, ap, ◌∙◌, Bool, true, false, ◌||◌, Option, none, some,
  List, [], ◌∷◌, ◌++◌, length, arith, ◌==◌, add_usize, sub_usize, usize_mod, Panics, Returns,
  Returns->>=, ◌>>=◌, All, Bool-cases, inl, inr,
}
use methylenix.LinkedList.{Ptr, Node, Store, LinkedList, get_first_entry, get_last_entry}
use methylenix.LinkedList.Chain.{IsList, first_or, last_or, last_or-some, ◌∉◌}
use methylenix.LinkedList.Insert.{Holds, insert_head-Holds, insert_tail-Holds}
use methylenix.LinkedList.Remove.{Removed, remove-Removed}
use methylenix.TaskManager.Thread.{Result, ok, err, thread_lock_error, invalid_thread_entry}
use methylenix.TaskManager.WaitQueue.{
  WaitQueue, add_thread, linked, take_and_wake, wakeup_one, wakeup_loop, add_thread_locked,
  wakeup_all,
}

module _ {W : Type 0} (wake_up_thread : ℕ → W → Result (Unit {0}) × W) (offset : ℕ) where
  -- What follows a thread that was woken up, or was not.
  abbrev pub after_wake :
      (W → Result (Unit {0}) × List Ptr × W)
      → List Ptr
      → Result (Unit {0})
      → W
      → Result (Unit {0}) × List Ptr × W
  after_wake rest xs (ok u) w = rest w
  after_wake rest xs (err e) w = (err e, xs, w)

  -- All threads of a list, one after the other: the result, those that are left, and the world.
  abbrev pub wake_threads : List Ptr → W → Result (Unit {0}) × List Ptr × W
  wake_threads [] w = (ok tt, [], w)
  wake_threads (x ∷ xs) w =
      let woken = wake_up_thread (sub_usize x offset) w in
      after_wake (wake_threads xs) xs woken.0 woken.1

  -- The list holds what is left, and the world is what it should be.
  abbrev pub Leaves :
      Result (Unit {0}) × List Ptr × W → Option (Result (Unit {0})) × WaitQueue W → Type 0
  Leaves (r, xs, w) (r', q) = (r' ≡ some r) × IsList q.store q.list xs × (q.world ≡ w)

  first_next :
      (q : WaitQueue W) (x : Ptr) (xs : List Ptr)
      → IsList q.store q.list (x ∷ xs)
      → (q.store x).next ≡ first_or xs none
  first_next q x xs is = ap (λ (n : Node). n.next) (is.chain.0)

  -- One node is taken, its thread woken up with this result.
  abbrev pub Took : List Ptr → Result (Unit {0}) × W → Result (Unit {0}) × WaitQueue W → Type 0
  Took xs woken (r, q) = (r ≡ woken.0) × IsList q.store q.list xs × (q.world ≡ woken.1)

  take_first :
      (q : WaitQueue W) (x : Ptr) (xs : List Ptr)
      → IsList q.store q.list (x ∷ xs)
      → Returns
          (Took xs (wake_up_thread (sub_usize x offset) q.world))
          (take_and_wake wake_up_thread offset x q)
  unfolding take_and_wake
  take_first q x xs is =
      Returns->>= {P = Removed q.store [] x xs} _ _ _ (remove-Removed q.list q.store [] x xs is)
        (λ p removed. (refl, removed.0, refl))

  loop :
      (fuel : ℕ) (xs : List Ptr) (q : WaitQueue W)
      → length xs ≤ fuel
      → IsList q.store q.list xs
      → Returns
          (Leaves (wake_threads xs q.world))
          (wakeup_loop wake_up_thread fuel offset (first_or xs none) q)
  unfolding wakeup_loop
  loop zero [] q enough is = (refl, is, refl)
  loop (suc fuel) [] q enough is = (refl, is, refl)
  loop zero (x ∷ xs) q enough is = absurd (omega arith)
  loop (suc fuel) (x ∷ xs) q enough is =
      let woken = wake_up_thread (sub_usize x offset) q.world in
      Returns->>= {P = Took xs woken} _ _ _ (take_first q x xs is) (λ p taken.
        subst (λ next. Returns (Leaves (wake_threads (x ∷ xs) q.world)) (goes_on fuel next p.0 p.1))
          (sym (first_next q x xs is))
          (go (λ q' is'. loop fuel xs q' (omega arith) is') woken.0 woken.1 p.0 p.1 taken.0 taken.1
            taken.2))
    where
      goes_on :
          ℕ
          → Option Ptr
          → Result (Unit {0})
          → WaitQueue W
          → Panics (Option (Result (Unit {0})) × WaitQueue W)
      goes_on fuel next r q' = elim r [
        | ok u ↦ wakeup_loop wake_up_thread fuel offset next q'
        | err e ↦ some (some (err e), q')
      ]

      go :
          ((q' : WaitQueue W)
            → IsList q'.store q'.list xs
            → Returns
                (Leaves (wake_threads xs q'.world))
                (wakeup_loop wake_up_thread fuel offset (first_or xs none) q'))
          → (r : Result (Unit {0})) (w : W) (r' : Result (Unit {0})) (q' : WaitQueue W) → r' ≡ r
          → IsList q'.store q'.list xs
          → q'.world ≡ w
          → Returns
              (Leaves (after_wake (wake_threads xs) xs r w))
              (goes_on fuel (first_or xs none) r' q')
      go rest (ok u) w r' q' same is' world = rw same (
          subst
            (λ v.
              Returns (Leaves (wake_threads xs v))
                (wakeup_loop wake_up_thread fuel offset (first_or xs none) q'))
            world (rest q' is'))
      go rest (err e) w r' q' same is' world = rw same (refl, is', world)

  -- Where the list has the nodes `xs` and the loop a round for each, `wakeup_all` does not panic and ends. It
  -- wakes the threads of `xs` in their order, each once, up to the first that cannot be woken up, and gives that
  -- result; the list then has the nodes behind it, and is empty where there was none.
  pub wakeup_all-Leaves :
      (fuel : ℕ) (xs : List Ptr) (q : WaitQueue W)
      → length xs ≤ fuel
      → IsList q.store q.list xs
      → Returns (Leaves (wake_threads xs q.world)) (wakeup_all wake_up_thread fuel offset q)
  unfolding wakeup_all
  wakeup_all-Leaves fuel xs q enough is =
      subst
        (λ next.
          Returns (Leaves (wake_threads xs q.world))
            (wakeup_loop wake_up_thread fuel offset next q))
        (sym is.head) (loop fuel xs q enough is)

  -- What `wakeup_one` does with a list.
  abbrev pub OneWoken : List Ptr → WaitQueue W → Result (Unit {0}) × WaitQueue W → Type 0
  OneWoken [] q p = p ≡ (err invalid_thread_entry, q)
  OneWoken (x ∷ xs) q p = Took xs (wake_up_thread (sub_usize x offset) q.world) p

  abbrev entry_at : Option Ptr → Option ℕ
  entry_at none = none
  entry_at (some h) = some (sub_usize h offset)

  first_entry_of :
      (l : LinkedList) (o : Option Ptr) → l.head ≡ o → get_first_entry l offset ≡ entry_at o
  unfolding get_first_entry
  first_entry_of l none h = rw h refl
  first_entry_of l (some x) h = rw h refl

  last_entry_of :
      (l : LinkedList) (o : Option Ptr) → l.tail ≡ o → get_last_entry l offset ≡ entry_at o
  unfolding get_last_entry
  last_entry_of l none h = rw h refl
  last_entry_of l (some x) h = rw h refl

  same_node :
      (x : Ptr) → x < usize_mod → offset < usize_mod → add_usize (sub_usize x offset) offset ≡ x
  same_node x h g = omega arith

  -- Where the list has the nodes `xs`, which are addresses of 64 bits, `wakeup_one` does not panic. It fails with
  -- InvalidThreadEntry and changes nothing where `xs` is empty; otherwise it takes the first node off the list,
  -- the others stay in their order, and gives the result of waking its thread.
  pub wakeup_one-OneWoken :
      (xs : List Ptr) (q : WaitQueue W)
      → IsList q.store q.list xs
      → All (λ x. x < usize_mod) xs
      → offset < usize_mod
      → Returns (OneWoken xs q) (wakeup_one wake_up_thread offset q)
  unfolding wakeup_one
  wakeup_one-OneWoken [] q is small le = rw (first_entry_of q.list none is.head, wakeup_one) refl
  wakeup_one-OneWoken (x ∷ xs) q is small le =
      rw (first_entry_of q.list (some x) is.head, wakeup_one, same_node x (small.0) le)
        (take_first q x xs is)

  -- Whether the thread of the last node is locked.
  abbrev pub last_locked : (ℕ → Bool) → Option Ptr → Bool
  last_locked locked none = false
  last_locked locked (some x) = locked (sub_usize x offset)

  -- What `add_thread` does: the node comes to the end of the list; or, where the last thread is locked,
  -- nothing happens.
  abbrev pub Added : Bool → List Ptr → Ptr → WaitQueue W → Result (Unit {0}) × WaitQueue W → Type 0
  Added held xs n q (ok u, q') =
      (held ≡ false) × IsList q'.store q'.list (xs ++ n ∷ []) × (q'.world ≡ q.world)
  Added held xs n q (err e, q') = (held ≡ true) × (e ≡ thread_lock_error) × (q' ≡ q)

  module _ (locked : ℕ → Bool) (thread : ℕ) (q : WaitQueue W) where
    -- The locks, with that of the thread, which the call holds.
    abbrev pub with_own : ℕ → Bool
    with_own t = (t == thread) || locked t

    own_lock : with_own thread ≡ true
    own_lock = ground arith

    Holds-Added :
        (held : Bool) (xs : List Ptr) (m : Panics (LinkedList × Store))
        → held ≡ false
        → Returns (Holds q.store (xs ++ add_usize thread offset ∷ [])) m
        → Returns (Added held xs (add_usize thread offset) q) (do r ← m; some (linked q r))
    Holds-Added held xs m free h =
        Returns->>= {P = Holds q.store (xs ++ add_usize thread offset ∷ [])} _ m _ h
          (λ r holds. (free, holds.0, refl))

    locked-Added :
        (xs : List Ptr)
        → IsList q.store q.list xs
        → add_usize thread offset ∉ xs
        → Returns
            (Added (last_locked with_own (last_or none xs)) xs (add_usize thread offset) q)
            (add_thread_locked offset with_own thread q)
    unfolding add_thread_locked
    locked-Added [] is out =
        rw (own_lock, last_entry_of q.list none is.tail, add_thread_locked)
          (Holds-Added false [] _ refl
            (insert_head-Holds q.list q.store [] (add_usize thread offset) is out))
    locked-Added (x ∷ xs) is out =
        let (t, last) = last_or-some none x xs in
        let run = last_entry_of q.list (some t) (is.tail ∙ last) in
        let end = ap (last_locked with_own) last in
        elim (Bool-cases (with_own (sub_usize t offset))) [
          | inl held ↦ rw (own_lock, run, add_thread_locked, held) (end ∙ held, refl, refl)
          | inr free ↦
              rw (own_lock, run, add_thread_locked, free)
                (Holds-Added _ (x ∷ xs) _ (end ∙ free)
                  (insert_tail-Holds q.list q.store (x ∷ xs) (add_usize thread offset) is out))
        ]

    -- Where the list has the nodes `xs`, that of an unlocked thread not among them, `add_thread` does not panic.
    -- Where `xs` is empty or the thread of its last node is not locked, it puts the new node at the end of the
    -- list; where that thread is locked, it fails with ThreadLockError, and changes nothing.
    pub add_thread-Added :
        (xs : List Ptr)
        → IsList q.store q.list xs
        → locked thread ≡ false
        → add_usize thread offset ∉ xs
        → Returns
            (Added (last_locked with_own (last_or none xs)) xs (add_usize thread offset) q)
            (add_thread offset locked thread q)
    unfolding add_thread
    add_thread-Added xs is free out = rw (free, add_thread) (locked-Added xs is out)
