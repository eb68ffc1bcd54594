-- ===== src/TaskManager/WaitQueue/Tests.antt =====
-- A wait queue of two threads, of which the second cannot be woken up.
use methylenix.Base.{
  ℕ, suc, refl, Bool, false, none, some, [], ◌∷◌, ◌==◌, if◌then◌else◌, arith, Returns,
}
use methylenix.LinkedList.{Store, node, linked_list}
use methylenix.LinkedList.Chain.{IsList}
use methylenix.TaskManager.Thread.{Result, ok, err, invalid_thread_entry}
use methylenix.TaskManager.WaitQueue.{WaitQueue, add_thread, wakeup_one, wakeup_all}
use methylenix.TaskManager.WaitQueue.Woken.{
  Leaves, wake_threads, OneWoken, Added, wakeup_all-Leaves, wakeup_one-OneWoken, add_thread-Added,
}

-- The world counts the threads that were woken up.
abbrev wake_up_thread : ℕ → ℕ → Result (Unit {0}) × ℕ
wake_up_thread t w = if t == 24 then (err invalid_thread_entry, w) else (ok tt, suc w)

abbrev two_threads : Store
two_threads p =
    if p == 16 then node none (some 32) else if p == 32 then node (some 16) none else node none none

abbrev waiting : WaitQueue ℕ
waiting = record { list = linked_list (some 16) (some 32); store = two_threads; world = 0 }

waiting-IsList : IsList waiting.store waiting.list (16 ∷ 32 ∷ [])
waiting-IsList = record {
  head = refl;
  tail = refl;
  chain = (refl, (refl, tt));
  distinct = (refl, (refl, tt));
}

abbrev unlocked : ℕ → Bool
unlocked t = false

wakeup_all-Leaves_example :
    Returns
      (Leaves wake_up_thread 8 (wake_threads wake_up_thread 8 (16 ∷ 32 ∷ []) 0))
      (wakeup_all wake_up_thread 2 8 waiting)
wakeup_all-Leaves_example =
    wakeup_all-Leaves wake_up_thread 8 2 (16 ∷ 32 ∷ []) waiting (omega arith) waiting-IsList

wakeup_one-OneWoken_example :
    Returns (OneWoken wake_up_thread 8 (16 ∷ 32 ∷ []) waiting) (wakeup_one wake_up_thread 8 waiting)
wakeup_one-OneWoken_example =
    wakeup_one-OneWoken wake_up_thread 8 (16 ∷ 32 ∷ []) waiting waiting-IsList
      (omega arith, (omega arith, tt)) (omega arith)

add_thread-Added_example :
    Returns
      (Added wake_up_thread 8 false (16 ∷ 32 ∷ []) 48 waiting)
      (add_thread 8 unlocked 40 waiting)
add_thread-Added_example =
    add_thread-Added wake_up_thread 8 unlocked 40 waiting (16 ∷ 32 ∷ []) waiting-IsList refl refl
