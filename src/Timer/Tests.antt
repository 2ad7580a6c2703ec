-- ===== src/Timer/Tests.antt =====
-- A handler with three active timers: 1 expires next, then 2 and 3 together; 1 is periodic.
use monolinux_c_library.Prelude.{ℕ, ◌+◌, ◌≡◌, refl, List, [], ◌∷◌, arith, map, ◌==◌, if◌then◌else◌}
use monolinux_c_library.Prelude.Int.{pos}
use monolinux_c_library.Timer.Deltas.{Node, node, timer_list_insert}
use monolinux_c_library.Timer.Handler.{Timer, Handler, timer_start, fire, tick}
use monolinux_c_library.Timer.Remaining.{remaining, insert_sorted, without}
use monolinux_c_library.Timer.Tick.{IsValid, expired, waiting, rearm, count_down, tick_lem}
use monolinux_c_library.Timer.Stop.{Rounded, timer_start_lem}

abbrev timer : ℕ → Timer
timer repeat = record {
  initial_ticks = 3;
  repeat_ticks = repeat;
  message = 124;
  queue = 1;
  number_of_outstanding_timeouts = pos 2;
  number_of_timeouts_to_ignore = pos 0;
}

abbrev three_nodes : List Node
three_nodes = node 1 1 ∷ node 2 3 ∷ node 3 0 ∷ []

abbrev handler : Handler
handler = record {
  list = three_nodes;
  timer = λ t. if t == 1 then timer 3 else timer 0;
  fired = [];
}

handler-IsValid : IsValid handler
handler-IsValid = ground arith

-- Timer 1 fires and is inserted again, after 3 more ticks, in front of the two others.
tick_once :
    ((tick handler).list ≡ node 1 3 ∷ node 2 0 ∷ node 3 0 ∷ []) × ((tick handler).fired ≡ 1 ∷ [])
unfolding tick fire timer_list_insert
tick_once = (refl, refl)

tick_lem_example :
    ((tick handler).fired ≡ expired (map count_down (remaining 0 three_nodes)))
    × (remaining 0 (tick handler).list
        ≡ rearm
            (λ t. (handler.timer t).repeat_ticks)
            (expired (map count_down (remaining 0 three_nodes)))
            (waiting (map count_down (remaining 0 three_nodes))))
    × IsValid (tick handler)
tick_lem_example = tick_lem handler handler-IsValid

timer_start_lem_example :
    (ticks : ℕ) × Rounded 150 ticks
    × (remaining 0 (timer_start 2 150 50 handler).list
        ≡ insert_sorted (node 2 (ticks + 1)) (without 2 (remaining 0 three_nodes)))
    × Rounded 50 ((timer_start 2 150 50 handler).timer 2).repeat_ticks
    × IsValid (timer_start 2 150 50 handler)
timer_start_lem_example =
    timer_start_lem 2 150 50 handler handler-IsValid (omega arith) (omega arith)
