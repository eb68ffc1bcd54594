-- ===== src/TimerManager/Queue.antt =====
-- The timers in the order of their timeouts.
use methylenix.Base.{
  ℕ, ◌+◌, ◌/◌, ◌≤◌, ◌<◌, ◌≡◌, refl, ap, ◌∙◌, Bool, true, false, ◌==◌, List, [], ◌∷◌, ◌++◌, leb, ltb,
  if◌then◌else◌, arith, usize_mod, Bool-cases, inl, inr, add_usize,
}
use methylenix.TimerManager.{
  TimerList, LocalTimerManager, waiting, expired, insert_timer, calculate_timeout, add_timer,
  handle, local_timer_handler,
}

-- The timeouts do not fall, from `lo` on.
abbrev pub IsSorted : ℕ → List TimerList → Type 0
IsSorted lo [] = Unit
IsSorted lo (t ∷ ts) = (lo ≤ t.timeout) × IsSorted t.timeout ts

-- The timers that time out up to `n`, and the others.
abbrev pub until : ℕ → List TimerList → List TimerList
until n [] = []
until n (t ∷ ts) = if leb t.timeout n then t ∷ until n ts else until n ts

abbrev pub after : ℕ → List TimerList → List TimerList
after n [] = []
after n (t ∷ ts) = if leb t.timeout n then after n ts else t ∷ after n ts

IsSorted-mono : (lo hi : ℕ) (ts : List TimerList) → lo ≤ hi → IsSorted hi ts → IsSorted lo ts
IsSorted-mono lo hi [] le s = s
IsSorted-mono lo hi (t ∷ ts) le s = (omega (arith, s), s.1)

until-none :
    (n lo : ℕ) (ts : List TimerList)
    → n < lo
    → IsSorted lo ts
    → (until n ts ≡ []) × (after n ts ≡ ts)
until-none n lo [] lt s = (refl, refl)
until-none n lo (t ∷ ts) lt s =
    let late : leb t.timeout n ≡ false = ground arith in
    let (a, b) = until-none n t.timeout ts (omega arith) s.1 in
    (rw late a, rw late (ap (λ us. t ∷ us) b))

insert_timer-Inserted :
    (current lo : ℕ) (t : TimerList) (ts : List TimerList)
    → lo ≤ t.timeout
    → current ≤ t.timeout
    → IsSorted lo ts
    → IsSorted lo (insert_timer current false t ts)
      × (insert_timer current false t ts ≡ until t.timeout ts ++ t ∷ after t.timeout ts)
unfolding insert_timer
insert_timer-Inserted current lo t [] le from s = ((le, tt), refl)
insert_timer-Inserted current lo t (e ∷ es) le from s =
    elim (Bool-cases (ltb t.timeout e.timeout)) [
      | inl before ↦
          let late : leb e.timeout t.timeout ≡ false = ground arith in
          let now : leb current e.timeout ≡ true = ground arith in
          let (a, b) = until-none t.timeout e.timeout es (ground arith) s.1 in
          rw (now, before, late, a, b) ((le, (ground arith, s.1)), refl)
      | inr behind ↦
          let early : leb e.timeout t.timeout ≡ true = ground arith in
          let (a, b) = insert_timer-Inserted current e.timeout t es (ground arith) from s.1 in
          elim (Bool-cases (leb current e.timeout)) [
            | inl now ↦ rw (now, behind, early) ((s.0, a), ap (λ us. e ∷ us) b)
            | inr past ↦ rw (past, early) ((s.0, a), ap (λ us. e ∷ us) b)
          ]
    ]

abbrev pub new_timer : ℕ → ℕ → ℕ → ℕ → TimerList
new_timer current wait_ms function data_word = record {
  timeout = current + wait_ms / 10;
  function = function;
  data_word = data_word;
  flags = waiting;
}

no_overflow :
    (current ms : ℕ)
    → current + ms / 10 < usize_mod
    → calculate_timeout current ms ≡ (current + ms / 10, false)
unfolding calculate_timeout
no_overflow current ms small =
    let sum : add_usize current (ms / 10) ≡ current + ms / 10 = omega arith in
    let flag : leb usize_mod (current + ms / 10) ≡ false = ground arith in rw (sum, flag) refl

add_timer_run :
    (current wait_ms function data_word : ℕ) (m : LocalTimerManager)
    → current + wait_ms / 10 < usize_mod
    → add_timer true current wait_ms function data_word m ≡ (
      true,
      record m {
        timer_list =
            insert_timer current false (new_timer current wait_ms function data_word) m.timer_list;
      },
    )
unfolding add_timer
add_timer_run current wait_ms function data_word m small =
    rw (no_overflow current wait_ms small) refl

-- What `add_timer` returns: success, and a sorted list in which the new timer stands behind those that time
-- out no later.
pub record Added (m : LocalTimerManager) (t : TimerList) (r : Bool × LocalTimerManager)
    : Type 0 where
  pub success : r.0 ≡ true
  pub sorted : IsSorted 0 r.1.timer_list
  pub placed : r.1.timer_list ≡ until t.timeout m.timer_list ++ t ∷ after t.timeout m.timer_list
  pub same_last : r.1.last_processed_timeout ≡ m.last_processed_timeout

-- With an entry in the pool and a tick that does not overflow, `add_timer` puts the new timer into a sorted list
-- behind the timers that time out no later and before the others, and the list stays sorted.
pub add_timer-Added :
    (current wait_ms function data_word : ℕ) (m : LocalTimerManager)
    → IsSorted 0 m.timer_list
    → current + wait_ms / 10 < usize_mod
    → Added m
        (new_timer current wait_ms function data_word)
        (add_timer true current wait_ms function data_word m)
add_timer-Added current wait_ms function data_word m s small =
    let (sorted, placed) =
      insert_timer-Inserted current 0 (new_timer current wait_ms function data_word) m.timer_list
        (omega arith) (omega arith) s in
    rw (add_timer_run current wait_ms function data_word m small)
      (record { success = refl; sorted = sorted; placed = placed; same_last = refl })

abbrev pub AllWaiting : List TimerList → Type 0
AllWaiting [] = Unit
AllWaiting (t ∷ ts) = (t.flags ≡ waiting) × AllWaiting ts

abbrev pub marked : List TimerList → List TimerList
marked [] = []
marked (t ∷ ts) = record t { flags = expired } ∷ marked ts

handle_lem :
    (takes : TimerList → Bool) (last current : ℕ) (ts : List TimerList)
    → ((t : TimerList) → takes t ≡ true)
    → last ≤ current
    → IsSorted (last + 1) ts
    → AllWaiting ts
    → ((handle takes last current ts).list ≡ after current ts)
      × ((handle takes last current ts).works ≡ marked (until current ts))
unfolding handle
handle_lem takes last current [] all le s w = (refl, refl)
handle_lem takes last current (t ∷ ts) all le s w =
    let forward : ltb current last ≡ false = ground arith in
    let later : ltb last t.timeout ≡ true = ground arith in
    let fresh : (t.flags == waiting) ≡ true = (let e = w.0 in ground arith) in
    elim (Bool-cases (leb t.timeout current)) [
      | inl over ↦
          let (a, b) =
            handle_lem takes last current ts all le (IsSorted-mono (last + 1) t.timeout ts s.0 s.1)
              w.1 in
          rw (forward, later, over, fresh, all (record t { flags = expired }))
            (a, ap (λ us. record t { flags = expired } ∷ us) b)
      | inr ahead ↦
          let (a, b) = until-none current t.timeout ts (ground arith) s.1 in
          rw (forward, later, ahead, a, b) (refl, refl)
    ]

-- Where every timer waits and times out after the last processed tick, the list is sorted, the tick has not
-- overflowed and the work queue takes every work, `local_timer_handler` adds exactly the works of the timers that
-- have timed out, in their order, and leaves the others in the list.
pub local_timer_handler_works :
    (takes : TimerList → Bool) (current : ℕ) (m : LocalTimerManager)
    → ((t : TimerList) → takes t ≡ true)
    → m.last_processed_timeout ≤ current
    → IsSorted (m.last_processed_timeout + 1) m.timer_list
    → AllWaiting m.timer_list
    → let (m', works) = local_timer_handler takes current m in
      (works ≡ marked (until current m.timer_list)) × (m'.timer_list ≡ after current m.timer_list)
unfolding local_timer_handler
local_timer_handler_works takes current m all le s w =
    let (a, b) = handle_lem takes m.last_processed_timeout current m.timer_list all le s w in (b, a)

-- The tick handler at each of the ticks, and all the works it adds.
abbrev pub handle_ticks :
    (TimerList → Bool) → List ℕ → LocalTimerManager → LocalTimerManager × List TimerList
handle_ticks takes [] m = (m, [])
handle_ticks takes (n ∷ ns) m =
    let (m', works) = local_timer_handler takes n m in
    let (m'', later) = handle_ticks takes ns m' in (m'', works ++ later)

-- The ticks do not fall, from `lo` on.
abbrev pub Rising : ℕ → List ℕ → Type 0
Rising lo [] = Unit
Rising lo (n ∷ ns) = (lo ≤ n) × Rising n ns

-- A tick at which the first timer has a timeout that was passed before.
passed_tick :
    (takes : TimerList → Bool) (n : ℕ) (t : TimerList) (ts : List TimerList) (m : LocalTimerManager)
    → m.timer_list ≡ t ∷ ts
    → t.timeout ≤ m.last_processed_timeout
    → m.last_processed_timeout ≤ n
    → local_timer_handler takes n m
      ≡ (record { timer_list = t ∷ ts; last_processed_timeout = n }, [])
unfolding local_timer_handler handle
passed_tick takes n t ts m first past le =
    let forward : ltb n m.last_processed_timeout ≡ false = ground arith in
    let before : ltb m.last_processed_timeout t.timeout ≡ false = ground arith in
    rw first (rw (forward, before) refl)

passed_ticks :
    (takes : TimerList → Bool) (ns : List ℕ) (t : TimerList) (ts : List TimerList)
    (m : LocalTimerManager)
    → m.timer_list ≡ t ∷ ts
    → t.timeout ≤ m.last_processed_timeout
    → Rising m.last_processed_timeout ns
    → let (m', works) = handle_ticks takes ns m in (works ≡ []) × (m'.timer_list ≡ t ∷ ts)
passed_ticks takes [] t ts m first past rising = (refl, first)
passed_ticks takes (n ∷ ns) t ts m first past rising =
    rw (passed_tick takes n t ts m first past rising.0) (
      passed_ticks takes ns t ts (record { timer_list = t ∷ ts; last_processed_timeout = n }) refl
        (omega (arith, rising.0)) rising.1)

-- Let every timer of a sorted list time out after the tick that was processed last. A timer of less than
-- one tick that is added in that tick comes to the front of the list, and from then on no tick adds a
-- work, neither for it nor for the timers behind it, and the list stays as it is: for every sequence of
-- ticks that do not fall, whatever the work queue takes.
pub short_timer_stays :
    (takes : TimerList → Bool) (ns : List ℕ) (wait_ms function data_word : ℕ)
    (m : LocalTimerManager)
    → IsSorted (m.last_processed_timeout + 1) m.timer_list
    → wait_ms < 10
    → m.last_processed_timeout < usize_mod
    → Rising m.last_processed_timeout ns
    → let current = m.last_processed_timeout in
      let (m', works) =
        handle_ticks takes ns (add_timer true current wait_ms function data_word m).1 in
      (works ≡ []) × (m'.timer_list ≡ new_timer current wait_ms function data_word ∷ m.timer_list)
short_timer_stays takes ns wait_ms function data_word m sorted short small rising =
    let current : ℕ = m.last_processed_timeout in
    let t : TimerList = new_timer current wait_ms function data_word in
    let now : current + wait_ms / 10 ≡ current = omega arith in
    let (early, late) = until-none t.timeout (current + 1) m.timer_list (omega arith) sorted in
    let placed =
      (insert_timer-Inserted current 0 t m.timer_list (omega arith) (omega arith)
        (IsSorted-mono 0 (current + 1) m.timer_list (omega arith) sorted)).1 in
    let front : insert_timer current false t m.timer_list ≡ t ∷ m.timer_list =
      placed ∙ rw (early, late) refl in
    rw (add_timer_run current wait_ms function data_word m (omega arith)) (
      passed_ticks takes ns t m.timer_list
        (record m { timer_list = insert_timer current false t m.timer_list }) front (omega arith)
        rising)
