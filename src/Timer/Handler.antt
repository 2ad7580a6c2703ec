-- ===== src/Timer/Handler.antt =====
-- The timer handler of src/ml_timer.c. The handler's mutex makes each function below atomic.
-- A message that a timer puts on its queue is recorded in `fired` by the timer, the last one last:
-- ml_queue_put blocks while that queue is full, and is modelled in Queue.
use monolinux_c_library.Prelude.{
  ℕ, zero, suc, ◌+◌, ◌/◌, List, [], ◌∷◌, ◌++◌, Bool, true, false, length, ltb, ◌==◌, if◌then◌else◌,
}
use monolinux_c_library.Prelude.Int.{ℤ, pos, ◌+ℤ◌, ◌-ℤ◌, ltb_ℤ}
use monolinux_c_library.Prelude.Words.{add32, sub32}
use monolinux_c_library.Timer.Deltas.{Node, timer_list_insert, timer_list_remove}

-- `struct ml_timer_t` but for `delta` and `next_p`, which stand in the list while the timer is
-- active, and are written before they are read otherwise.
pub record Timer : Type 0 where
  pub initial_ticks : ℕ
  pub repeat_ticks : ℕ
  pub message : ℕ
  pub queue : ℕ
  pub number_of_outstanding_timeouts : ℤ
  pub number_of_timeouts_to_ignore : ℤ

pub record Handler : Type 0 where
  pub list : List Node
  pub timer : ℕ → Timer
  pub fired : List ℕ

abbrev pub with_timer : Handler → ℕ → Timer → Handler
with_timer s t timer = record s { timer = λ r. if t == r then timer else s.timer r }

-- `DIV_CEIL(a, 100)` in `unsigned int`: the sum wraps.
unfoldable pub div_ceil : ℕ → ℕ
div_ceil a = sub32 (add32 a 100) 1 / 100

unfoldable pub handler_init : (ℕ → Timer) → Handler
handler_init timer = record { list = []; timer = timer; fired = [] }

-- ml_timer_handler_timer_init; the ticks are left as they are.
unfoldable pub timer_init : ℕ → ℕ → ℕ → Handler → Handler
timer_init t message queue s = with_timer s t (record (s.timer t) {
  message = message;
  queue = queue;
  number_of_outstanding_timeouts = pos 0;
  number_of_timeouts_to_ignore = pos 0;
})

unfoldable pub timer_stop : ℕ → Handler → Handler
timer_stop t s =
    record (with_timer s t (record (s.timer t) {
      number_of_timeouts_to_ignore = (s.timer t).number_of_outstanding_timeouts;
    })) { list = timer_list_remove t s.list }

unfoldable pub timer_start : ℕ → ℕ → ℕ → Handler → Handler
unfolding timer_stop div_ceil
timer_start t initial repeat s =
    let stopped = timer_stop t s in
    let timer = record (stopped.timer t) {
      initial_ticks = div_ceil initial;
      repeat_ticks = div_ceil repeat;
    } in
    record (with_timer stopped t timer) {
      list = timer_list_insert t (add32 timer.initial_ticks 1) stopped.list;
    }

-- The body of the `while` loop of a tick, for the expired timer at the head of the list.
unfoldable pub fire : ℕ → List Node → Handler → Handler
unfolding ◌+ℤ◌
fire t rest s =
    let timer = record (s.timer t) {
      number_of_outstanding_timeouts = (s.timer t).number_of_outstanding_timeouts +ℤ pos 1;
    } in
    record (with_timer s t timer) {
      list = if ltb 0 timer.repeat_ticks then timer_list_insert t timer.repeat_ticks rest else rest;
      fired = s.fired ++ (t ∷ []);
    }

abbrev pub set_list : Handler → List Node → Handler
set_list s list = record s { list = list }

-- The loop runs while the head, or the tail, whose delta is not 0, has delta 0. Fuel bounds it:
-- Tick.fire_expired_lem gives the fuel that is enough.
unfoldable pub fire_expired : ℕ → List Node → Handler → Handler
fire_expired zero list s = s
fire_expired (suc fuel) [] s = s
fire_expired (suc fuel) (head ∷ rest) s =
    let next = fire head.timer rest s in
    let loop = fire_expired fuel next.list next in if head.delta == 0 then loop else s

-- The decrement of the head's delta wraps at 0.
abbrev pub decrement_head : List Node → List Node
decrement_head [] = []
decrement_head (head ∷ rest) = record head { delta = sub32 head.delta 1 } ∷ rest

unfoldable pub tick : Handler → Handler
unfolding fire_expired
tick s = let list = decrement_head s.list in fire_expired (length list + 1) list (set_list s list)

unfoldable pub is_message_valid : ℕ → Handler → Bool × Handler
unfolding ◌-ℤ◌
is_message_valid t s =
    let timer = record (s.timer t) {
      number_of_outstanding_timeouts = (s.timer t).number_of_outstanding_timeouts -ℤ pos 1;
    } in
    if ltb_ℤ (pos 0) timer.number_of_timeouts_to_ignore
    then (
      false,
      with_timer s t (record timer {
        number_of_timeouts_to_ignore = timer.number_of_timeouts_to_ignore -ℤ pos 1;
      }),
    )
    else (true, with_timer s t timer)
