-- ===== src/Sync/Sequence.antt =====
-- kernel/sync/spin_lock.rs: `SequenceSpinLock`, a sequence counter over a spin lock.
use methylenix.Base.{
  ℕ, zero, suc, ◌%◌, ◌<◌, ◌≡◌, refl, Bool, true, false, not, Option, none, some, ◌==◌,
  if◌then◌else◌, arith, add_usize, usize_mod,
}
use methylenix.Sync.SpinLock.{drop, try_lock}

pub record SequenceSpinLock : Type 0 where
  pub flag : Bool
  pub sequence : ℕ

abbrev pub new : SequenceSpinLock
new = record { flag = false; sequence = 0 }

-- `write_lock`, once `lock` has found the flag free: `none` while another writer holds it.
unfoldable pub write_lock : SequenceSpinLock → Option SequenceSpinLock
unfolding try_lock
write_lock l =
    let (got, flag) = try_lock l.flag in
    if got then some (record { flag = flag; sequence = add_usize l.sequence 1 }) else none

-- `write_unlock`
unfoldable pub write_unlock : SequenceSpinLock → SequenceSpinLock
unfolding drop
write_unlock l = record l { flag = drop l.flag }

-- `read_start`: the value of the counter in the holder, `none` after `rounds` rounds of the loop;
-- `sequence & 1` is `sequence % 2`. No writer moves the counter meanwhile.
unfoldable pub read_start : ℕ → SequenceSpinLock → Option ℕ
read_start zero l = none
read_start (suc rounds) l =
    let again = read_start rounds l in if l.sequence % 2 == 0 then some l.sequence else again

unfoldable pub should_read_retry : SequenceSpinLock → ℕ → Bool
should_read_retry l sequence = not (sequence == l.sequence)

read_start_value :
    (rounds : ℕ) (l : SequenceSpinLock) (seq : ℕ)
    → read_start rounds l ≡ some seq
    → seq ≡ l.sequence
unfolding read_start
read_start_value zero l seq r = cc
read_start_value (suc rounds) l seq r = ground (arith, read_start_value rounds l seq)

read_start_odd :
    (rounds : ℕ) (l : SequenceSpinLock) → l.sequence % 2 ≡ 1 → read_start rounds l ≡ none
unfolding read_start
read_start_odd zero l odd = refl
read_start_odd (suc rounds) l odd = ground (arith, read_start_odd rounds l odd)

-- A reader that started before a writer locked is told to retry, during the write and after it.
pub should_read_retry-write_lock :
    (l w : SequenceSpinLock) (rounds seq : ℕ)
    → l.sequence < usize_mod
    → read_start rounds l ≡ some seq
    → write_lock l ≡ some w
    → (should_read_retry l seq ≡ false)
      × (should_read_retry w seq ≡ true)
      × (should_read_retry (write_unlock w) seq ≡ true)
unfolding should_read_retry write_lock write_unlock
should_read_retry-write_lock l w rounds seq small r e =
    ground (arith, read_start_value rounds l seq r)

-- A writer leaves the counter odd when it unlocks, since `write_unlock` does not count: after one
-- complete write to a lock that readers could enter, no number of rounds lets a reader in.
pub read_start_after_write :
    (l w : SequenceSpinLock) (rounds : ℕ)
    → l.sequence % 2 ≡ 0
    → write_lock l ≡ some w
    → read_start rounds (write_unlock w) ≡ none
unfolding write_lock write_unlock
read_start_after_write l w rounds even e = read_start_odd rounds (write_unlock w) (ground arith)
