-- ===== src/TimerManager/Tests.antt =====
-- The timers on concrete lists.
use methylenix.Base.{ℕ, ◌≡◌, refl, arith, Bool, true, [], ◌∷◌}
use methylenix.TimerManager.{TimerList, LocalTimerManager, waiting, add_timer, local_timer_handler}
use methylenix.TimerManager.Queue.{
  Added, marked, handle_ticks, new_timer, add_timer-Added, local_timer_handler_works,
  short_timer_stays,
}

abbrev timer : ℕ → TimerList
timer n = record { timeout = n; function = 4096; data_word = n; flags = waiting }

abbrev three_timers : LocalTimerManager
three_timers = record {
  timer_list = timer 12 ∷ timer 14 ∷ timer 20 ∷ [];
  last_processed_timeout = 10;
}

abbrev takes_all : TimerList → Bool
takes_all t = true

add_timer-Added_example :
    Added three_timers (new_timer 11 30 8192 1) (add_timer true 11 30 8192 1 three_timers)
add_timer-Added_example =
    add_timer-Added 11 30 8192 1 three_timers (omega arith, (omega arith, (omega arith, tt)))
      (omega arith)

local_timer_handler_works_example :
    ((local_timer_handler takes_all 15 three_timers).1 ≡ marked (timer 12 ∷ timer 14 ∷ []))
    × ((local_timer_handler takes_all 15 three_timers).0.timer_list ≡ timer 20 ∷ [])
local_timer_handler_works_example =
    local_timer_handler_works takes_all 15 three_timers (λ t. refl) (omega arith)
      (omega arith, (omega arith, (omega arith, tt))) (refl, (refl, (refl, tt)))

short_timer_stays_example :
    let (m', works) =
      handle_ticks takes_all (11 ∷ 15 ∷ 30 ∷ []) (add_timer true 10 5 8192 1 three_timers).1 in
    (works ≡ []) × (m'.timer_list ≡ new_timer 10 5 8192 1 ∷ three_timers.timer_list)
short_timer_stays_example =
    short_timer_stays takes_all (11 ∷ 15 ∷ 30 ∷ []) 5 8192 1 three_timers
      (omega arith, (omega arith, (omega arith, tt))) (omega arith) (omega arith)
      (omega arith, (omega arith, (omega arith, tt)))
