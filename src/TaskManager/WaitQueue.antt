-- ===== src/TaskManager/WaitQueue.antt =====
-- kernel/task_manager/wait_queue.rs: the queue of sleeping threads, on the pointers of LinkedList. A thread stands
-- at an address, its node `sleep_list` at `offset` behind it. `wake_up_thread` of the task manager changes a
-- world of its own, which does not hold the nodes. `add_current_thread`, which switches the context, is left.
pub mod Woken
mod Tests
use methylenix.Base.{
  ℕ, zero, suc, Bool, true, false, not, ◌||◌, Option, none, some, List, [], ◌∷◌, ◌==◌,
  if◌then◌else◌, add_usize, sub_usize, Panics, ◌>>=◌, ◌>>◌, assert,
}
use methylenix.LinkedList.{
  Ptr, Store, LinkedList, insert_head, insert_tail, get_first_entry, get_last_entry, remove,
}
use methylenix.TaskManager.Thread.{Result, ok, err, thread_lock_error, invalid_thread_entry}

-- `WaitQueue`, with the nodes and the world.
pub record WaitQueue (W : Type 0) : Type 0 where
  pub list : LinkedList
  pub store : Store
  pub world : W

module _ {W : Type 0} where
  abbrev pub linked : WaitQueue W → LinkedList × Store → Result (Unit {0}) × WaitQueue W
  linked q (l, s) = (ok tt, record q { list = l; store = s })

  -- The locks of the threads are taken as `locked` says.
  unfoldable pub add_thread_locked :
      ℕ → (ℕ → Bool) → ℕ → WaitQueue W → Panics (Result (Unit {0}) × WaitQueue W)
  add_thread_locked offset locked thread q = do
    assert (locked thread)
    elim (get_last_entry q.list offset) [
      | some last_thread ↦
          if locked last_thread
          then some (err thread_lock_error, q)
          else (do r ← insert_tail q.list (add_usize thread offset) q.store; some (linked q r))
      | none ↦ (do r ← insert_head q.list (add_usize thread offset) q.store; some (linked q r))
    ]

  -- `locked` are the locks that others hold; `add_thread` takes that of the thread.
  unfoldable pub add_thread :
      ℕ → (ℕ → Bool) → ℕ → WaitQueue W → Panics (Result (Unit {0}) × WaitQueue W)
  add_thread offset locked thread q = do
    assert (not (locked thread))
    add_thread_locked offset (λ t. (t == thread) || locked t) thread q

  module _ (wake_up_thread : ℕ → W → Result (Unit {0}) × W) where
    -- The node is taken off the list and its thread woken up.
    unfoldable pub take_and_wake : ℕ → Ptr → WaitQueue W → Panics (Result (Unit {0}) × WaitQueue W)
    take_and_wake offset n q = do
      (l, s) ← remove q.list n q.store
      let woken = wake_up_thread (sub_usize n offset) q.world
      some (woken.0, record { list = l; store = s; world = woken.1 })

    unfoldable pub wakeup_one : ℕ → WaitQueue W → Panics (Result (Unit {0}) × WaitQueue W)
    wakeup_one offset q = elim (get_first_entry q.list offset) [
      | none ↦ some (err invalid_thread_entry, q)
      | some thread ↦ take_and_wake offset (add_usize thread offset) q
    ]

    -- `for thread in self.list.iter_mut(..)`: the iterator reads `next` before the body removes the node. The
    -- fuel bounds the rounds; the inner `none` is that it has run out.
    unfoldable pub wakeup_loop :
        ℕ → ℕ → Option Ptr → WaitQueue W → Panics (Option (Result (Unit {0})) × WaitQueue W)
    wakeup_loop fuel offset none q = some (some (ok tt), q)
    wakeup_loop zero offset (some n) q = some (none, q)
    wakeup_loop (suc fuel) offset (some n) q = do
      let next = (q.store n).next
      (r, q') ← take_and_wake offset n q
      elim r [ ok u ↦ wakeup_loop fuel offset next q' | err e ↦ some (some (err e), q') ]

    unfoldable pub wakeup_all :
        ℕ → ℕ → WaitQueue W → Panics (Option (Result (Unit {0})) × WaitQueue W)
    wakeup_all fuel offset q = wakeup_loop fuel offset q.list.head q
