-- ===== src/Sync/RwLock/Writers.antt =====
-- Who can hold the guards of rwlock.rs together.
use mathlib.Core.Path.{subst}
use methylenix.Base.{
  ℕ, ◌<◌, ◌≡◌, ◌≢◌, refl, sym, ap, ◌∙◌, Bool, true, false, ◌==◌, if◌then◌else◌, arith, inl, inr,
  Bool-cases,
}
use methylenix.Sync.Atomic.{update, compare_exchange}
use methylenix.Sync.RwLock.{
  Place, outside, reader_checked, reading, writer_claimed, writing, System, init, Step, read_load,
  read_add, read_drop, write_exchange, write_load, write_drop, Reach, here, later, add_reader,
  drop_writer,
}

-- The place of a thread that has set `write_locked`.
abbrev pub owns : Place → Bool
owns writer_claimed = true
owns writing = true
owns _ = false

-- At most one thread owns `write_locked`, and it is set exactly while one does.
record IsOwned (s : System) : Type 0 where
  unique : (i j : ℕ) → owns (s.place i) ≡ true → owns (s.place j) ≡ true → i ≡ j
  locked : (i : ℕ) → owns (s.place i) ≡ true → s.write_locked ≡ true

-- A thread that does not own the flag moves to a place that does not.
stay_out :
    (s : System) (i readers : ℕ) (q : Place)
    → owns (s.place i) ≡ false
    → owns q ≡ false
    → IsOwned s
    → IsOwned (record s { readers = readers; place = update s.place i q })
stay_out s i readers q out out' v = record {
  unique = λ j k hj hk. v.unique j k (still j hj) (still k hk);
  locked = λ j hj. v.locked j (still j hj);
}
  where
    still : (j : ℕ) → owns (update s.place i q j) ≡ true → owns (s.place j) ≡ true
    still j h = elim (Bool-cases (j == i)) [
      | inl same ↦ cc (out', rw same at h)
      | inr other ↦ rw other at h
    ]

-- The owner moves to a place that owns the flag too.
stay_in :
    (s : System) (i : ℕ) (q : Place)
    → owns (s.place i) ≡ true
    → IsOwned s
    → IsOwned (record s { place = update s.place i q })
stay_in s i q own v = record {
  unique = λ j k hj hk. v.unique j k (still j hj) (still k hk);
  locked = λ j hj. v.locked j (still j hj);
}
  where
    still : (j : ℕ) → owns (update s.place i q j) ≡ true → owns (s.place j) ≡ true
    still j h = elim (Bool-cases (j == i)) [ inl same ↦ ground arith | inr other ↦ rw other at h ]

-- The owner gives the flag up.
let_go :
    (s : System) (i : ℕ) (locked : Bool)
    → owns (s.place i) ≡ true
    → IsOwned s
    → IsOwned (record s { write_locked = locked; place = update s.place i outside })
let_go s i locked own v = record {
  unique = λ j k hj hk. absurd (gone j hj);
  locked = λ j hj. absurd (gone j hj);
}
  where
    gone : (j : ℕ) → owns (update s.place i outside j) ≡ true → ⊥
    gone j h = elim (Bool-cases (j == i)) [
      | inl same ↦ ground arith
      | inr other ↦ ground (arith, v.unique j i)
    ]

-- A thread sets the flag that was free.
claim :
    (s : System) (i : ℕ)
    → s.write_locked ≡ false
    → IsOwned s
    → IsOwned (record s { write_locked = true; place = update s.place i writer_claimed })
claim s i free v = record {
  unique = λ j k hj hk. only j hj ∙ sym (only k hk);
  locked = λ j hj. refl;
}
  where
    only : (j : ℕ) → owns (update s.place i writer_claimed j) ≡ true → j ≡ i
    only j h = elim (Bool-cases (j == i)) [
      | inl same ↦ ground arith
      | inr other ↦ cc (free, v.locked j (rw other at h))
    ]

exchange-IsOwned :
    (locked : Bool) (readers : ℕ) (f : ℕ → Place) (i : ℕ)
    → owns (f i) ≡ false
    → IsOwned (record { write_locked = locked; readers = readers; place = f })
    → let (got, locked') = compare_exchange locked in
      IsOwned (record {
        write_locked = locked';
        readers = readers;
        place = update f i (if got then writer_claimed else outside);
      })
exchange-IsOwned true readers f i out v =
    stay_out (record { write_locked = true; readers = readers; place = f }) i readers outside out
      refl v
exchange-IsOwned false readers f i out v =
    claim (record { write_locked = false; readers = readers; place = f }) i refl v

-- The branch of `write_load`.
load-IsOwned :
    (free : Bool) (s : System) (i : ℕ)
    → owns (s.place i) ≡ true
    → IsOwned s
    → IsOwned (record s {
      write_locked = if free then s.write_locked else false;
      place = update s.place i (if free then writing else outside);
    })
load-IsOwned true s i own v = stay_in s i writing own v
load-IsOwned false s i own v = let_go s i false own v

not_owned : (b : Bool) (q : Place) → owns q ≡ false → owns (if b then q else outside) ≡ false
not_owned true q h = h
not_owned false q h = refl

not_owned' : (b : Bool) (q : Place) → owns q ≡ false → owns (if b then outside else q) ≡ false
not_owned' true q h = refl
not_owned' false q h = h

Step-IsOwned : (s t : System) (i : ℕ) → Step s i t → IsOwned s → IsOwned t
Step-IsOwned s t i (read_load p e) v =
    subst IsOwned (sym e)
      (stay_out s i s.readers _ (ap owns p) (not_owned' s.write_locked reader_checked refl) v)
Step-IsOwned s t i (read_add p e) v =
    subst IsOwned (sym e)
      (stay_out s i _ _ (ap owns p) (not_owned (add_reader s.readers).0 reading refl) v)
Step-IsOwned s t i (read_drop p e) v =
    subst IsOwned (sym e) (stay_out s i _ outside (ap owns p) refl v)
Step-IsOwned s t i (write_exchange p e) v =
    subst IsOwned (sym e) (exchange-IsOwned s.write_locked s.readers s.place i (ap owns p) v)
Step-IsOwned s t i (write_load p e) v =
    subst IsOwned (sym e) (load-IsOwned (s.readers == 0) s i (ap owns p) v)
Step-IsOwned s t i (write_drop p e) v =
    subst IsOwned (sym e) (let_go s i (drop_writer s.write_locked) (ap owns p) v)

Reach-IsOwned : {n : ℕ} {s t : System} → IsOwned s → Reach n s t → IsOwned t
Reach-IsOwned v here = v
Reach-IsOwned v (later {t} {u} r i lt st) = Step-IsOwned t u i st (Reach-IsOwned v r)

init-IsOwned : IsOwned init
init-IsOwned = record { unique = λ i j h k. cc; locked = λ i h. cc }

-- Whatever the interleaving, two threads never hold a write guard together, and `write_locked` is
-- set while one does.
pub writers_exclude :
    {n : ℕ} {s : System}
    → Reach n init s
    → ((i j : ℕ) → s.place i ≡ writing → s.place j ≡ writing → i ≡ j)
      × ((i : ℕ) → s.place i ≡ writing → s.write_locked ≡ true)
writers_exclude r =
    let v = Reach-IsOwned init-IsOwned r in
    (λ i j p q. v.unique i j (ap owns p) (ap owns q), λ i p. v.locked i (ap owns p))

-- The lock is free.
free_system : (ℕ → Place) → System
free_system f = record { write_locked = false; readers = 0; place = f }

System-free : (s : System) → s.write_locked ≡ false → s.readers ≡ 0 → s ≡ free_system s.place
unfolding free_system
System-free s free empty =
    ap (λ b. record { write_locked = b; readers = s.readers; place = s.place }) free
    ∙ ap (λ m. record { write_locked = false; readers = m; place = s.place }) empty

same : (f : ℕ → Place) (i : ℕ) (q : Place) → update f i q i ≡ q
same f i q = ground arith

other : (f : ℕ → Place) (i j : ℕ) (q : Place) → j ≢ i → update f i q j ≡ f j
other f i j q ne = ground arith

-- The four accesses, from a free lock.
race :
    (n : ℕ) (f : ℕ → Place) (i j : ℕ)
    → i < n
    → j < n
    → i ≢ j
    → f i ≡ outside
    → f j ≡ outside
    → (t : System) × Reach n (free_system f) t × (t.place i ≡ reading) × (t.place j ≡ writing)
unfolding add_reader free_system
race n f i j hi hj ne p q = (
  record {
    write_locked = true;
    readers = 1;
    place =
        update (update (update (update f i reader_checked) j writer_claimed) j writing) i reading;
  },
  later
      (later
        (later (later here i hi (read_load p refl)) j hj
          (write_exchange (other f i j reader_checked (λ e. ne (sym e)) ∙ q) refl))
        j hj (write_load (same (update f i reader_checked) j writer_claimed) refl))
      i hi
      (read_add
        (other (update (update f i reader_checked) j writer_claimed) j i writing ne
          ∙ other (update f i reader_checked) j i writer_claimed ne
          ∙ same f i reader_checked)
        refl),
  same (update (update (update f i reader_checked) j writer_claimed) j writing) i reading,
  other (update (update (update f i reader_checked) j writer_claimed) j writing) i j reading
        (λ e. ne (sym e))
      ∙ same (update (update f i reader_checked) j writer_claimed) j writing,
)

-- Readers and writers do not exclude each other: from every state in which the lock is free and two
-- different threads are outside, an interleaving of `try_read` and `try_write` gives the one a read
-- guard and the other a write guard.
pub reader_and_writer :
    (n : ℕ) (s : System) (i j : ℕ)
    → i < n
    → j < n
    → i ≢ j
    → s.write_locked ≡ false
    → s.readers ≡ 0
    → s.place i ≡ outside
    → s.place j ≡ outside
    → (t : System) × Reach n s t × (t.place i ≡ reading) × (t.place j ≡ writing)
reader_and_writer n s i j hi hj ne free empty p q =
    subst (λ u. (t : System) × Reach n u t × (t.place i ≡ reading) × (t.place j ≡ writing))
      (sym (System-free s free empty)) (race n s.place i j hi hj ne p q)
