-- ===== src/OneWire/Life.antt =====
-- Each request for a temperature gets one response, src/ml_one_wire.c.
use monolinux_c_library.Prelude.{ℕ, ◌+◌, ◌-◌, ◌^◌, ◌≡◌, ◌<◌, refl, ap, List, [], ◌∷◌, Option, arith}
use monolinux_c_library.Prelude.Int.{ℤ}
use monolinux_c_library.OneWire.Sensor.{
  wait_for_convert_timeout, RegNum, Sensor, Result, done, one_wire_init, handle_read_temperature,
  handle_timeout,
}
use monolinux_c_library.OneWire.Messages.{message_loop}
use monolinux_c_library.OneWire.Answers.{
  IsConsistent, same, due, Answers, request-Answers, timeout-Answers,
}
use monolinux_c_library.OneWire.Walks.{message_loop-Answers}

-- The life of the sensor, with the response queues of the requests so far, the latest first:
-- requests, the messages of the timer, which come while the conversion is waited for, and any
-- messages of the kernel but for the number -1.
pub data Lives : Sensor → List ℕ → Sensor → Type 0 where
  begun : {self : Sensor} → Lives self [] self
  request :
      {self self' self'' : Sensor} {queues : List ℕ} (stale : ℤ) (sent : Option ℕ)
      (queue slave_id : ℕ)
      → Lives self queues self'
      → handle_read_temperature stale sent queue slave_id self' ≡ done self''
      → Lives self (queue ∷ queues) self''
  timeout :
      {self self' self'' : Sensor} {queues : List ℕ} (sent : Option ℕ)
      → Lives self queues self'
      → self'.state ≡ wait_for_convert_timeout
      → handle_timeout sent self' ≡ done self''
      → Lives self queues self''
  message :
      {self self' self'' : Sensor} {queues : List ℕ} (rounds seq len : ℕ) (buf : List ℕ)
      → Lives self queues self'
      → seq < 2 ^ 32 - 1
      → message_loop rounds seq len buf 0 self' ≡ done self''
      → Lives self queues self''

-- How many requests asked for a response on the queue `q`.
abbrev pub requests : ℕ → List ℕ → ℕ
requests q [] = 0
requests q (queue ∷ queues) = same q queue + requests q queues

concluded :
    (q : ℕ) {self : Sensor} {m n : ℕ} {r : Result}
    → Answers q m r
    → m ≡ n
    → r ≡ done self
    → IsConsistent self × (due q self ≡ n)
concluded q a d e = rw d at (rw e at a)

-- At every time, and for every queue, as many responses were put on the queue as there were requests
-- with it, but for one that is due on the queue that is kept just while a reading goes on: each
-- request is answered once, on its own queue, whatever is sent and received, where the timer's
-- messages come in time, no message has the number -1, and no step reads outside the buffer or goes
-- on for ever.
pub Lives-Answers :
    {self : Sensor} (id : RegNum) (queues : List ℕ) (q : ℕ)
    → Lives (one_wire_init id) queues self
    → IsConsistent self × (due q self ≡ requests q queues)
unfolding one_wire_init
Lives-Answers id _ q begun = (record { queue = refl; number = refl }, omega arith)
Lives-Answers id (_ ∷ queues) q (request stale sent queue slave_id l e) =
    let (c, d) = Lives-Answers id queues q l in
    concluded q (request-Answers q stale sent queue slave_id _ c) (ap (λ n. same q queue + n) d) e
Lives-Answers id queues q (timeout sent l s e) =
    let (c, d) = Lives-Answers id queues q l in concluded q (timeout-Answers q sent _ c s) d e
Lives-Answers id queues q (message rounds seq len buf l h e) =
    let (c, d) = Lives-Answers id queues q l in
    concluded q (message_loop-Answers q rounds seq len buf 0 (requests q queues) _ c h d) refl e
