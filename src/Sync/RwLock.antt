-- ===== src/Sync/RwLock.antt =====
-- kernel/sync/rwlock.rs: the readers-writer lock.
pub mod Writers
use methylenix.Base.{
  ℕ, ◌+◌, ◌-◌, ◌%◌, ◌<◌, ◌≡◌, Bool, true, false, not, ◌==◌, if◌then◌else◌, add_usize, sub_usize,
  usize_mod,
}
use methylenix.Sync.Atomic.{compare_exchange, update}

-- `readers.fetch_update(…)` of `try_read`: whether it succeeded, and the counter.
unfoldable pub add_reader : ℕ → Bool × ℕ
add_reader readers =
    if readers == usize_mod - 1 then (false, readers) else (true, add_usize readers 1)

-- `Drop for RwLockReadGuard`: whether it panics, and the counter.
unfoldable pub drop_reader : ℕ → Bool × ℕ
drop_reader readers = (readers == 0, sub_usize readers 1)

-- `Drop for RwLockWriteGuard`
unfoldable pub drop_writer : Bool → Bool
drop_writer write_locked = false

-- Where a thread is: outside; in `try_read` behind the load of `write_locked`; with a read guard; in
-- `try_write` behind its exchange; with a write guard.
pub data Place : Type 0 where
  outside reader_checked reading writer_claimed writing : Place

pub record System : Type 0 where
  pub write_locked : Bool
  pub readers : ℕ
  pub place : ℕ → Place

abbrev pub init : System
init = record { write_locked = false; readers = 0; place = λ _. outside }

-- One atomic access of thread `i`. `read` and `write` call `try_read` and `try_write` again when these
-- fail, so each failure leads outside.
pub data Step (s : System) (i : ℕ) (t : System) : Type 0 where
  read_load :
      s.place i ≡ outside
      → t
        ≡ record s { place = update s.place i (if s.write_locked then outside else reader_checked) }
      → Step s i t
  read_add :
      s.place i ≡ reader_checked
      → t ≡ (
          let (got, readers) = add_reader s.readers in
          record s {
            readers = readers;
            place = update s.place i (if got then reading else outside);
          })
      → Step s i t
  read_drop :
      s.place i ≡ reading
      → t ≡ record s { readers = (drop_reader s.readers).1; place = update s.place i outside }
      → Step s i t
  write_exchange :
      s.place i ≡ outside
      → t ≡ (
          let (got, locked) = compare_exchange s.write_locked in
          record s {
            write_locked = locked;
            place = update s.place i (if got then writer_claimed else outside);
          })
      → Step s i t
  write_load :
      s.place i ≡ writer_claimed
      → t ≡ record s {
        write_locked = if s.readers == 0 then s.write_locked else false;
        place = update s.place i (if s.readers == 0 then writing else outside);
      }
      → Step s i t
  write_drop :
      s.place i ≡ writing
      → t ≡ record s { write_locked = drop_writer s.write_locked; place = update s.place i outside }
      → Step s i t

-- The states that the first `n` threads can bring about from `s`.
pub data Reach (n : ℕ) (s : System) : System → Type 0 where
  here : Reach n s s
  later : {t u : System} → Reach n s t → (i : ℕ) → i < n → Step t i u → Reach n s u
