-- ===== src/OneWire/Sensor.antt =====
-- The states of a reading, src/ml_one_wire.c. The queue of a response and the timer are recorded by
-- name, and log output is left out. `sent` is the `errno` of a send() that fails.
use monolinux_c_library.Prelude.{
  ℕ, ◌+◌, ◌/◌, ◌%◌, ◌^◌, List, [], ◌∷◌, ◌++◌, Option, none, some, replicate, ◌==◌, if◌then◌else◌,
}
use monolinux_c_library.Prelude.Int.{ℤ, pos, negsuc, minus}

-- `enum ds18b20_state_t`.
pub data State : Type 0 where
  idle : State
  wait_for_convert_done : State
  wait_for_convert_timeout : State
  wait_for_read_done : State

-- `struct w1_reg_num`.
pub record RegNum : Type 0 where
  pub family : ℕ
  pub id : ℕ
  pub crc : ℕ

-- What was done: a request sent to the kernel with its number and its commands, the timer started,
-- and a response put on a queue, with its result and the temperature in sixteenths of a degree.
pub data Effect : Type 0 where
  send : RegNum → ℕ → List ℕ → Effect
  timer_start : ℕ → Effect
  respond : ℕ → ℤ → ℤ → Effect

-- `struct module_t`, with the effects so far, the last one first.
pub record Sensor : Type 0 where
  pub cn_seqno : ℕ
  pub state : State
  pub id : RegNum
  pub seqno : ℤ
  pub response_queue : Option ℕ
  pub effects : List Effect

-- What a handler comes to: a new state, an access outside the buffer, a null queue, or no end.
pub data Result : Type 0 where
  done : Sensor → Result
  outside : Result
  null : Result
  endless : Result

abbrev pub effect : Effect → Sensor → Sensor
effect e self = record self { effects = e ∷ self.effects }

-- The part of ml_one_wire_init.
unfoldable pub one_wire_init : RegNum → Sensor
one_wire_init id = record {
  cn_seqno = 0;
  state = idle;
  id = id;
  seqno = negsuc 0;
  response_queue = none;
  effects = [];
}

unfoldable pub next_seqno : Sensor → Sensor
next_seqno self = record self { cn_seqno = if self.cn_seqno == 1000 then 1 else self.cn_seqno + 1 }

-- send_nl_message with the message of init_nl_message: `seqno` is the number sent, or `-errno`.
unfoldable pub send_nl_message : Option ℕ → List ℕ → Sensor → Sensor
unfolding next_seqno
send_nl_message sent commands self =
    let self' = next_seqno self in
    let out = effect (send self'.id self'.cn_seqno commands) self' in
    elim sent [
      | none ↦ record out { seqno = pos self'.cn_seqno }
      | some errno ↦ record out { seqno = minus errno }
    ]

unfoldable pub finalize_with : Option ℕ → ℤ → ℤ → Sensor → Result
finalize_with none res temperature self = null
finalize_with (some queue) res temperature self =
    done (record (effect (respond queue res temperature) self) {
      state = idle;
      seqno = negsuc 0;
      response_queue = none;
    })

abbrev pub finalize : ℤ → ℤ → Sensor → Result
finalize res temperature self = finalize_with self.response_queue res temperature self

-- ds18b20_finalize_busy: -EBUSY, and a temperature that is not set.
abbrev pub finalize_busy : ℕ → ℤ → Sensor → Sensor
finalize_busy queue temperature = effect (respond queue (negsuc 15) temperature)

-- W1_CMD_WRITE with DS18B20_CONVERT_T.
unfoldable pub send_convert : Option ℕ → Sensor → Sensor
unfolding send_nl_message
send_convert sent = send_nl_message sent (1 ∷ 0 ∷ 1 ∷ 0 ∷ 68 ∷ [])

-- W1_CMD_WRITE with DS18B20_READ_SCRATCHPAD, and W1_CMD_READ of 9 bytes.
unfoldable pub send_read_scratchpad : Option ℕ → Sensor → Sensor
unfolding send_nl_message
send_read_scratchpad sent =
    send_nl_message sent ((1 ∷ 0 ∷ 1 ∷ 0 ∷ 190 ∷ []) ++ ((0 ∷ 0 ∷ 9 ∷ 0 ∷ []) ++ replicate 9 0))

-- The next state if the message is out, and the response if not.
unfoldable pub or_finalize : State → ℤ → Sensor → Result
unfolding finalize_with
or_finalize state (pos n) self = done (record self { state = state })
or_finalize state (negsuc n) self = finalize (negsuc n) (pos 0) self

abbrev pub or_sent : State → Sensor → Result
or_sent state self = or_finalize state self.seqno self

abbrev pub begin : ℕ → ℕ → Sensor → Sensor
begin queue slave_id self = record self {
  response_queue = some queue;
  id = record {
    family = slave_id / 2 ^ 56;
    id = slave_id / 2 ^ 8 % 2 ^ 48;
    crc = slave_id % 2 ^ 8;
  };
}

unfoldable pub on_request : Option ℕ → ℤ → Option ℕ → ℕ → ℕ → Sensor → Result
unfolding send_convert or_finalize
on_request (some other) stale sent queue slave_id self = done (finalize_busy queue stale self)
on_request none stale sent queue slave_id self =
    or_sent wait_for_convert_done (send_convert sent (begin queue slave_id self))

-- ds18b20_handle_read_temperature. `stale` is what malloc() left in the busy response.
unfoldable pub handle_read_temperature : ℤ → Option ℕ → ℕ → ℕ → Sensor → Result
unfolding on_request
handle_read_temperature stale sent queue slave_id self =
    on_request self.response_queue stale sent queue slave_id self

unfoldable pub handle_convert_done : Sensor → Sensor
handle_convert_done self = record (effect (timer_start 750) self) {
  state = wait_for_convert_timeout;
}

unfoldable pub handle_timeout : Option ℕ → Sensor → Result
unfolding send_read_scratchpad or_finalize
handle_timeout sent self = or_sent wait_for_read_done (send_read_scratchpad sent self)
