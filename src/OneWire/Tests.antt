-- ===== src/OneWire/Tests.antt =====
-- A reading from request to response, and two messages that go wrong.
use monolinux_c_library.Prelude.{ℕ, ◌≡◌, refl, List, [], ◌∷◌, ◌++◌, none, some, replicate, arith}
use monolinux_c_library.Prelude.Int.{ℤ, pos, negsuc}
use monolinux_c_library.OneWire.Sensor.{
  idle, wait_for_convert_done, wait_for_convert_timeout, RegNum, Sensor, Result, done, endless,
  effect, respond, send, one_wire_init, handle_read_temperature, handle_timeout,
}
use monolinux_c_library.OneWire.Messages.{and_then, message_loop}
use monolinux_c_library.OneWire.Answers.{IsConsistent, due}
use monolinux_c_library.OneWire.Life.{begun, request, requests, Lives-Answers}
use monolinux_c_library.OneWire.Stale.{scratchpad, message_loop-endless}

abbrev no_id : RegNum
no_id = record { family = 0; id = 0; crc = 0 }

-- The acknowledgement of a write of one byte.
abbrev written : List ℕ
written = (5 ∷ 0 ∷ 5 ∷ 0 ∷ replicate 8 0) ++ (1 ∷ 0 ∷ 1 ∷ 0 ∷ 68 ∷ [])

-- 20 degrees are 320 sixteenths.
abbrev twenty_degrees : List ℕ
twenty_degrees = scratchpad (64 ∷ 1 ∷ replicate 7 0)

abbrev queue_of : Result → List ℤ
queue_of (done self) = elim (self.effects) [
  | [] ↦ []
  | e ∷ effects ↦ elim e [
    | respond queue res temperature ↦ pos queue ∷ res ∷ temperature ∷ []
    | _ ↦ []
  ]
]
queue_of _ = []

whole_reading :
    queue_of (
      and_then
        (and_then
          (and_then
            (handle_read_temperature (pos 0) none 7 42 (one_wire_init no_id))
            (message_loop 1 1 17 written 0))
          (handle_timeout none))
        (message_loop 1 2 25 twenty_degrees 0))
    ≡ pos 7 ∷ pos 0 ∷ pos 320 ∷ []
unfolding handle_read_temperature one_wire_init message_loop handle_timeout
whole_reading = refl

-- The state after a request.
abbrev asked : Sensor
asked = record {
  cn_seqno = 1;
  state = wait_for_convert_done;
  id = record { family = 0; id = 0; crc = 42 };
  seqno = pos 1;
  response_queue = some 7;
  effects = send (record { family = 0; id = 0; crc = 42 }) 1 (1 ∷ 0 ∷ 1 ∷ 0 ∷ 68 ∷ []) ∷ [];
}

asked_done : handle_read_temperature (pos 0) none 7 42 (one_wire_init no_id) ≡ done asked
unfolding handle_read_temperature one_wire_init
asked_done = refl

Lives-Answers_example : IsConsistent asked × (due 7 asked ≡ requests 7 (7 ∷ []))
Lives-Answers_example =
    Lives-Answers {self = asked} no_id (7 ∷ []) 7 (request (pos 0) none 7 42 begun asked_done)

-- An error while the timer runs ends the reading, and the timer runs on.
error_in_wait :
    message_loop 1 1 12
      (5 ∷ 110 ∷ 0 ∷ 0 ∷ replicate 8 0)
      0
      (record asked { state = wait_for_convert_timeout })
    ≡ done (record (effect (respond 7 (negsuc 109) (pos 0)) asked) {
      state = idle;
      seqno = negsuc 0;
      response_queue = none;
    })
unfolding message_loop
error_in_wait = refl

message_loop-endless_example :
    message_loop 1000 0 20 (0 ∷ 0 ∷ 244 ∷ 255 ∷ replicate 8 0) 0 asked ≡ endless
message_loop-endless_example =
    message_loop-endless 1000 0 20 (0 ∷ 0 ∷ 244 ∷ 255 ∷ replicate 8 0) asked
      (λ e. absurd (omega (arith, e))) refl (omega arith) (omega arith)
