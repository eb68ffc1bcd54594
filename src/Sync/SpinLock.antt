-- ===== src/Sync/SpinLock.antt =====
-- kernel/sync/spin_lock.rs: `SpinLockFlag`, on which `Mutex` is built.
use methylenix.Base.{
  ℕ, ◌≡◌, ◌≢◌, refl, sym, Bool, true, false, ◌==◌, if◌then◌else◌, arith, ◌⊎◌, inl, inr, Bool-cases,
}
use mathlib.Core.Path.{subst}
use methylenix.Sync.Atomic.{compare_exchange, update}

-- `SpinLockFlag::new`
abbrev pub new : Bool
new = false

-- `try_lock`: whether a holder is returned, and the flag.
unfoldable pub try_lock : Bool → Bool × Bool
try_lock flag = compare_exchange flag

-- `try_lock_weak`: the exchange may also fail for no reason, as `spurious` says.
unfoldable pub try_lock_weak : Bool → Bool → Bool × Bool
try_lock_weak spurious flag = if spurious then (false, flag) else compare_exchange flag

-- `Drop for SpinLockFlagHolder`
unfoldable pub drop : Bool → Bool
drop flag = false

abbrev pub is_locked : Bool → Bool
is_locked flag = flag

-- Where a thread is: outside, before the exchange of `try_lock` or of the loop of `lock`, in its inner
-- loop, or holding the lock.
pub data Place : Type 0 where
  outside trying locking waiting holding : Place

pub record System : Type 0 where
  pub flag : Bool
  pub place : ℕ → Place

-- One atomic access of thread `i`.
pub data Step (s : System) (t : System) : Type 0 where
  call_try_lock :
      (i : ℕ) → s.place i ≡ outside → t ≡ record s { place = update s.place i trying } → Step s t
  call_lock :
      (i : ℕ) → s.place i ≡ outside → t ≡ record s { place = update s.place i locking } → Step s t
  exchange :
      (i : ℕ)
      → s.place i ≡ trying
      → t ≡ (
          let (got, flag) = try_lock s.flag in
          record { flag = flag; place = update s.place i (if got then holding else outside) })
      → Step s t
  exchange_weak :
      (i : ℕ) (spurious : Bool)
      → s.place i ≡ locking
      → t ≡ (
          let (got, flag) = try_lock_weak spurious s.flag in
          record { flag = flag; place = update s.place i (if got then holding else waiting) })
      → Step s t
  spin :
      (i : ℕ)
      → s.place i ≡ waiting
      → t ≡ record s { place = update s.place i (if is_locked s.flag then waiting else locking) }
      → Step s t
  release :
      (i : ℕ)
      → s.place i ≡ holding
      → t ≡ record { flag = drop s.flag; place = update s.place i outside }
      → Step s t

abbrev pub init : System
init = record { flag = new; place = λ _. outside }

pub data Reach : System → Type 0 where
  start : {s : System} → s ≡ init → Reach s
  later : {s t : System} → Reach s → Step s t → Reach t

-- The lock is held by at most one thread, and the flag is set exactly when one holds it.
pub record IsSafe (s : System) : Type 0 where
  pub unique : (i j : ℕ) → s.place i ≡ holding → s.place j ≡ holding → i ≡ j
  pub locked : (i : ℕ) → s.place i ≡ holding → s.flag ≡ true
  pub held : s.flag ≡ true → (i : ℕ) × (s.place i ≡ holding)

-- The place of thread `j` after thread `i` moved.
update-holding :
    (f : ℕ → Place) (i j : ℕ) (q : Place)
    → update f i q j ≡ holding
    → ((j ≡ i) × (q ≡ holding)) ⊎ ((j ≢ i) × (f j ≡ holding))
update-holding f i j q h = elim (Bool-cases (j == i)) [
  | inl same ↦ inl (ground arith, rw same at h)
  | inr other ↦ inr (ground arith, rw other at h)
]

-- A thread that does not hold the lock moves on and does not get it.
move_on :
    (flag : Bool) (f : ℕ → Place) (i : ℕ) (q : Place)
    → f i ≢ holding
    → q ≢ holding
    → IsSafe (record { flag = flag; place = f })
    → IsSafe (record { flag = flag; place = update f i q })
move_on flag f i q out out' v = record {
  unique = λ j k hj hk. elim (update-holding f i j q hj) [
    | inl (_, h) ↦ absurd (out' h)
    | inr (_, h) ↦ elim (update-holding f i k q hk) [
      | inl (_, h') ↦ absurd (out' h')
      | inr (_, h') ↦ v.unique j k h h'
    ]
  ];
  locked = λ j hj. elim (update-holding f i j q hj) [
    | inl (_, h) ↦ absurd (out' h)
    | inr (_, h) ↦ v.locked j h
  ];
  held = λ h.
      let (j, hj) = v.held h in
      (
        j,
        elim (Bool-cases (j == i)) [
          | inl same ↦ absurd (out (ground arith))
          | inr other ↦ rw other hj
        ],
      );
}

-- The exchange of a thread that does not hold the lock.
exchange-IsSafe :
    (flag : Bool) (f : ℕ → Place) (i : ℕ) (otherwise : Place)
    → f i ≢ holding
    → otherwise ≢ holding
    → IsSafe (record { flag = flag; place = f })
    → let (got, flag') = compare_exchange flag in
      IsSafe (record { flag = flag'; place = update f i (if got then holding else otherwise) })
exchange-IsSafe true f i otherwise out out' v = move_on true f i otherwise out out' v
exchange-IsSafe false f i otherwise out out' v = record {
  unique = λ j k hj hk. elim (update-holding f i j holding hj) [
    | inl (e, _) ↦ elim (update-holding f i k holding hk) [
      | inl (e', _) ↦ omega arith
      | inr (_, h) ↦ cc (v.locked k h)
    ]
    | inr (_, h) ↦ cc (v.locked j h)
  ];
  locked = λ j hj. refl;
  held = λ _. (i, ground arith);
}

release-IsSafe :
    (flag flag' : Bool) (f : ℕ → Place) (i : ℕ)
    → f i ≡ holding
    → flag' ≡ false
    → IsSafe (record { flag = flag; place = f })
    → IsSafe (record { flag = flag'; place = update f i outside })
release-IsSafe flag flag' f i h e v = record {
  unique = λ j k hj hk. absurd (gone j hj);
  locked = λ j hj. absurd (gone j hj);
  held = λ h'. cc;
}
  where
    gone : (j : ℕ) → update f i outside j ≡ holding → ⊥
    gone j hj = elim (update-holding f i j outside hj) [
      | inl (_, h') ↦ cc
      | inr (ne, h') ↦ ne (v.unique j i h' h)
    ]

Step-IsSafe : (s t : System) → Step s t → IsSafe s → IsSafe t
unfolding try_lock try_lock_weak drop
Step-IsSafe s t (call_try_lock i p e) v =
    subst IsSafe (sym e) (move_on s.flag s.place i trying (cc p) (cc) v)
Step-IsSafe s t (call_lock i p e) v =
    subst IsSafe (sym e) (move_on s.flag s.place i locking (cc p) (cc) v)
Step-IsSafe s t (exchange i p e) v =
    subst IsSafe (sym e) (exchange-IsSafe s.flag s.place i outside (cc p) (cc) v)
Step-IsSafe s t (exchange_weak i true p e) v =
    subst IsSafe (sym e) (move_on s.flag s.place i waiting (cc p) (cc) v)
Step-IsSafe s t (exchange_weak i false p e) v =
    subst IsSafe (sym e) (exchange-IsSafe s.flag s.place i waiting (cc p) (cc) v)
Step-IsSafe s t (spin i p e) v =
    subst IsSafe (sym e) (move_on s.flag s.place i _ (cc p) (not_got s.flag) v)
  where
    not_got : (b : Bool) → (if b then waiting else locking) ≢ holding
    not_got true = cc
    not_got false = cc
Step-IsSafe s t (release i p e) v =
    subst IsSafe (sym e) (release-IsSafe s.flag (drop s.flag) s.place i p refl v)

init-IsSafe : IsSafe init
init-IsSafe = record { unique = λ i j h k. cc; locked = λ i h. cc; held = λ h. cc }

Reach-IsSafe : {s : System} → Reach s → IsSafe s
Reach-IsSafe (start e) = subst IsSafe (sym e) init-IsSafe
Reach-IsSafe (later {s} {t} r st) = Step-IsSafe s t st (Reach-IsSafe r)

-- Whatever the interleaving of any number of threads, two threads never hold the lock together, and
-- the flag is set exactly while a thread holds it.
pub mutual_exclusion :
    {s : System}
    → Reach s
    → ((i j : ℕ) → s.place i ≡ holding → s.place j ≡ holding → i ≡ j)
      × ((i : ℕ) → s.place i ≡ holding → is_locked s.flag ≡ true)
      × (is_locked s.flag ≡ true → (i : ℕ) × (s.place i ≡ holding))
mutual_exclusion r = let v = Reach-IsSafe r in (v.unique, v.locked, v.held)

unlocked : (s : System) → IsSafe s → ((i : ℕ) → s.place i ≢ holding) → s.flag ≡ false
unlocked s v free = elim (Bool-cases s.flag) [
  | inl locked ↦ let (i, h) = v.held locked in absurd (free i h)
  | inr e ↦ e
]

-- No deadlock: in every reachable state with a free lock, a thread that is before an exchange gets the
-- lock by its next step, if the exchange does not fail for no reason.
pub free_lock_is_taken :
    {s : System}
    → Reach s
    → ((i : ℕ) → s.place i ≢ holding)
    → (i : ℕ) → (s.place i ≡ trying) ⊎ (s.place i ≡ locking)
    → (t : System) × Step s t × (t.place i ≡ holding)
unfolding try_lock try_lock_weak
free_lock_is_taken {s} r free i (inl p) =
    let open_flag : s.flag ≡ false = unlocked s (Reach-IsSafe r) free in
    (_, exchange i p refl, ground arith)
free_lock_is_taken {s} r free i (inr p) =
    let open_flag : s.flag ≡ false = unlocked s (Reach-IsSafe r) free in
    (_, exchange_weak i false p refl, ground arith)
