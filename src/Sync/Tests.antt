-- ===== src/Sync/Tests.antt =====
-- The locks on concrete states.
use methylenix.Base.{ℕ, ◌≡◌, refl, none, some, true, false, arith}
use methylenix.Sync.Atomic.{update}
use methylenix.Sync.SpinLock
use methylenix.Sync.RwLock
use methylenix.Sync.RwLock.Writers.{writers_exclude, reader_and_writer}
use methylenix.Sync.Sequence.{
  SequenceSpinLock, write_lock, write_unlock, read_start, should_read_retry,
  should_read_retry-write_lock, read_start_after_write,
}

-- Thread 0 is in `try_lock`; then it holds the lock.
abbrev tried : SpinLock.System
tried = record { flag = false; place = update (λ _. SpinLock.outside) 0 SpinLock.trying }

abbrev held : SpinLock.System
held = record {
  flag = true;
  place = update (update (λ _. SpinLock.outside) 0 SpinLock.trying) 0 SpinLock.holding;
}

tried-Reach : SpinLock.Reach tried
tried-Reach =
    SpinLock.later (SpinLock.start {s = SpinLock.init} refl) (SpinLock.call_try_lock 0 refl refl)

held-Reach : SpinLock.Reach held
unfolding SpinLock.try_lock
held-Reach = SpinLock.later tried-Reach (SpinLock.exchange 0 refl refl)

mutual_exclusion_example :
    ((i j : ℕ) → held.place i ≡ SpinLock.holding → held.place j ≡ SpinLock.holding → i ≡ j)
    × ((i : ℕ) → held.place i ≡ SpinLock.holding → SpinLock.is_locked held.flag ≡ true)
    × (SpinLock.is_locked held.flag ≡ true → (i : ℕ) × (held.place i ≡ SpinLock.holding))
mutual_exclusion_example = SpinLock.mutual_exclusion held-Reach

-- Thread 1 has called `try_write`.
abbrev claimed : RwLock.System
claimed = record {
  write_locked = true;
  readers = 0;
  place = update (λ _. RwLock.outside) 1 RwLock.writer_claimed;
}

claimed-Reach : RwLock.Reach 2 RwLock.init claimed
claimed-Reach = RwLock.later RwLock.here 1 (omega arith) (RwLock.write_exchange refl refl)

abbrev written : RwLock.System
written = record {
  write_locked = true;
  readers = 0;
  place = update (update (λ _. RwLock.outside) 1 RwLock.writer_claimed) 1 RwLock.writing;
}

written-Reach : RwLock.Reach 2 RwLock.init written
written-Reach = RwLock.later claimed-Reach 1 (omega arith) (RwLock.write_load refl refl)

writers_exclude_example :
    ((i j : ℕ) → written.place i ≡ RwLock.writing → written.place j ≡ RwLock.writing → i ≡ j)
    × ((i : ℕ) → written.place i ≡ RwLock.writing → written.write_locked ≡ true)
writers_exclude_example = writers_exclude written-Reach

reader_and_writer_example :
    (t : RwLock.System) × RwLock.Reach 2 RwLock.init t
    × (t.place 0 ≡ RwLock.reading)
    × (t.place 1 ≡ RwLock.writing)
reader_and_writer_example =
    reader_and_writer 2 RwLock.init 0 1 (omega arith) (omega arith) (omega arith) refl refl refl
      refl

abbrev quiet : SequenceSpinLock
quiet = record { flag = false; sequence = 4 }

abbrev busy : SequenceSpinLock
busy = record { flag = true; sequence = 5 }

quiet_start : read_start 1 quiet ≡ some 4
unfolding read_start
quiet_start = refl

quiet_lock : write_lock quiet ≡ some busy
unfolding write_lock
quiet_lock = refl

should_read_retry-write_lock_example :
    (should_read_retry quiet 4 ≡ false)
    × (should_read_retry busy 4 ≡ true)
    × (should_read_retry (write_unlock busy) 4 ≡ true)
should_read_retry-write_lock_example =
    should_read_retry-write_lock quiet busy 1 4 (omega arith) quiet_start quiet_lock

read_start_after_write_example : read_start 3 (write_unlock busy) ≡ none
read_start_after_write_example = read_start_after_write quiet busy 3 refl quiet_lock
