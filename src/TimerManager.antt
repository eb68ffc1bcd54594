-- ===== src/TimerManager.antt =====
-- kernel/timer_manager.rs: the local timers of a processor. The list is a list of its entries; the current
-- tick of the global timer manager, whether the pool has an entry, and whether the work queue takes a
-- work are arguments. Interrupts are off in each operation, which makes it one step.
pub mod Queue
mod Tests
use methylenix.Base.{
  ℕ, ◌+◌, ◌*◌, ◌/◌, ◌==◌, Bool, true, false, not, ◌&&◌, ◌||◌, List, [], ◌∷◌, leb, ltb,
  if◌then◌else◌, usize_mod, add_usize,
}

pub record TimerList : Type 0 where
  pub timeout : ℕ
  pub function : ℕ
  pub data_word : ℕ
  pub flags : ℕ

pub record LocalTimerManager : Type 0 where
  pub timer_list : List TimerList
  pub last_processed_timeout : ℕ

-- The values of `flags` that the handler sets and tests
abbrev pub waiting : ℕ
waiting = 0

abbrev pub expired : ℕ
expired = 1

abbrev pub timer_interval_ms : ℕ
timer_interval_ms = 10

-- `calculate_timeout`: the tick, and whether it has overflowed.
unfoldable pub calculate_timeout : ℕ → ℕ → ℕ × Bool
calculate_timeout current ms =
    (add_usize current (ms / timer_interval_ms), leb usize_mod (current + ms / timer_interval_ms))

-- The test of the loop of `add_timer`: the new timer stands before the entry.
abbrev pub goes_before : ℕ → Bool → TimerList → TimerList → Bool
goes_before current is_overflowed t e =
    if not is_overflowed
    then leb current e.timeout && ltb t.timeout e.timeout
    else leb e.timeout current && ltb t.timeout e.timeout

unfoldable pub insert_timer : ℕ → Bool → TimerList → List TimerList → List TimerList
insert_timer current is_overflowed t [] = t ∷ []
insert_timer current is_overflowed t (e ∷ es) =
    let rest = insert_timer current is_overflowed t es in
    if goes_before current is_overflowed t e then t ∷ e ∷ es else e ∷ rest

-- `add_timer`: whether it succeeds, and the manager.
unfoldable pub add_timer : Bool → ℕ → ℕ → ℕ → ℕ → LocalTimerManager → Bool × LocalTimerManager
add_timer allocated current wait_ms function data_word m =
    let end = calculate_timeout current wait_ms in
    let list : TimerList = record {
      timeout = end.0;
      function = function;
      data_word = data_word;
      flags = waiting;
    } in
    if not allocated
    then (false, m)
    else (true, record m { timer_list = insert_timer current end.1 list m.timer_list })

-- The test of `local_timer_handler` for the first entry.
abbrev pub is_due : ℕ → ℕ → TimerList → Bool
is_due last current t =
    let is_overflowed = ltb current last in
    (not is_overflowed && (ltb last t.timeout && leb t.timeout current))
    || (is_overflowed && (ltb last t.timeout || leb t.timeout current))

-- What the loop leaves: the list, the last processed timeout, and the timers whose work was added.
pub record Handled : Type 0 where
  pub list : List TimerList
  pub last : ℕ
  pub works : List TimerList

abbrev pub with_work : TimerList → Handled → Handled
with_work t h = record h { works = t ∷ h.works }

-- The loop of `local_timer_handler`; `takes` is whether the work queue takes the work of a timer. An entry with
-- another flag leaves the list without a work.
unfoldable pub handle : (TimerList → Bool) → ℕ → ℕ → List TimerList → Handled
handle takes last current [] = record { list = []; last = last; works = [] }
handle takes last current (t ∷ ts) =
    let rest = handle takes last current ts in
    let t' = record t { flags = expired } in
    if is_due last current t
    then (if t.flags == waiting
        then (if takes t'
            then with_work t' rest
            else record { list = t' ∷ ts; last = last; works = [] })
        else rest)
    else record { list = t ∷ ts; last = current; works = [] }

-- `local_timer_handler` but for the tick of the run queue: the manager and the works.
unfoldable pub local_timer_handler :
    (TimerList → Bool) → ℕ → LocalTimerManager → LocalTimerManager × List TimerList
local_timer_handler takes current m =
    let h = handle takes m.last_processed_timeout current m.timer_list in
    (record { timer_list = h.list; last_processed_timeout = h.last }, h.works)
