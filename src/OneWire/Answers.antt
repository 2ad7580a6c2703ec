-- ===== src/OneWire/Answers.antt =====
-- The handlers of src/ml_one_wire.c keep count of the responses given and due on a queue.
use monolinux_c_library.Prelude.{
  ℕ, zero, ◌+◌, ◌≡◌, ◌≤◌, refl, sym, ap, ◌∙◌, ◌==◌, List, [], ◌∷◌, Option, none, some, Bool, true,
  false, not, arith, if◌then◌else◌,
}
use monolinux_c_library.Prelude.Int.{ℤ, pos, negsuc}
use monolinux_c_library.OneWire.Sensor.{
  State, idle, wait_for_convert_done, wait_for_convert_timeout, wait_for_read_done, Effect, respond,
  Sensor, Result, done, outside, null, endless, send_nl_message, finalize, finalize_with,
  send_convert, send_read_scratchpad, or_finalize, or_sent, begin, on_request,
  handle_read_temperature, handle_timeout,
}

abbrev pub is_idle : State → Bool
is_idle idle = true
is_idle _ = false

abbrev pub is_pending : Option ℕ → Bool
is_pending none = false
is_pending (some queue) = true

-- A queue is kept just while a reading goes on, and a number as well.
pub record IsConsistent (self : Sensor) : Type 0 where
  pub queue : is_pending self.response_queue ≡ not (is_idle self.state)
  pub number : (if is_idle self.state then self.seqno else negsuc 0) ≡ negsuc 0

-- How many responses were put on a queue, and whether one is due there.
abbrev pub same : ℕ → ℕ → ℕ
same q queue = if q == queue then 1 else 0

abbrev pub is_response : ℕ → Effect → ℕ
is_response q (respond queue res temperature) = same q queue
is_response q _ = 0

abbrev pub responses : ℕ → List Effect → ℕ
responses q [] = 0
responses q (e ∷ effects) = is_response q e + responses q effects

abbrev pub is_due : ℕ → Option ℕ → ℕ
is_due q none = 0
is_due q (some queue) = same q queue

abbrev pub due : ℕ → Sensor → ℕ
due q self = responses q self.effects + is_due q self.response_queue

-- A consistent state in which so many responses are given or due on a queue; never a null queue.
abbrev pub Answers : ℕ → ℕ → Result → Type 0
Answers q n (done self) = IsConsistent self × (due q self ≡ n)
Answers q n outside = 0 ≤ n
Answers q n null = 1 ≤ zero
Answers q n endless = 0 ≤ n

finalize_with-Answers :
    (q : ℕ) (queue : Option ℕ) (res temperature : ℤ) (self : Sensor)
    → is_pending queue ≡ true
    → Answers q
        (responses q self.effects + is_due q queue)
        (finalize_with queue res temperature self)
unfolding finalize_with
finalize_with-Answers q none res temperature self p = absurd (ground arith)
finalize_with-Answers q (some queue) res temperature self p =
    (record { queue = refl; number = refl }, omega arith)

pub finalize-Answers :
    (q : ℕ) (res temperature : ℤ) (self : Sensor)
    → is_pending self.response_queue ≡ true
    → Answers q (due q self) (finalize res temperature self)
finalize-Answers q res temperature self p =
    finalize_with-Answers q self.response_queue res temperature self p

or_finalize-Answers :
    (q : ℕ) (state : State) (seqno : ℤ) (self : Sensor)
    → is_pending self.response_queue ≡ true
    → is_idle state ≡ false
    → Answers q (due q self) (or_finalize state seqno self)
unfolding or_finalize
or_finalize-Answers q state (pos n) self p i =
    (record { queue = rw (i, p) refl; number = rw i refl }, refl)
or_finalize-Answers q state (negsuc n) self p i = finalize-Answers q (negsuc n) (pos 0) self p

-- A message to the kernel changes neither the queue nor the responses.
sent_kept :
    (q : ℕ) (sent : Option ℕ) (commands : List ℕ) (self : Sensor)
    → ((send_nl_message sent commands self).response_queue ≡ self.response_queue)
      × (responses q (send_nl_message sent commands self).effects ≡ responses q self.effects)
unfolding send_nl_message
sent_kept q none commands self = (refl, omega arith)
sent_kept q (some errno) commands self = (refl, omega arith)

or_sent-Answers :
    (q : ℕ) (state : State) (sent : Option ℕ) (commands : List ℕ) (self : Sensor)
    → is_pending self.response_queue ≡ true
    → is_idle state ≡ false
    → Answers q (due q self) (or_sent state (send_nl_message sent commands self))
or_sent-Answers q state sent commands self p i =
    let self' = send_nl_message sent commands self in
    let (kept, r) = sent_kept q sent commands self in
    let e : due q self' ≡ due q self = rw (kept, r) refl in
    rw e at (or_finalize-Answers q state self'.seqno self' (rw kept p) i)

on_request-Answers :
    (q : ℕ) (kept : Option ℕ) (stale : ℤ) (sent : Option ℕ) (queue slave_id : ℕ) (self : Sensor)
    → kept ≡ self.response_queue
    → IsConsistent self
    → Answers q
        (same q queue + (responses q self.effects + is_due q kept))
        (on_request kept stale sent queue slave_id self)
unfolding on_request send_convert
on_request-Answers q none stale sent queue slave_id self e c =
    let one : same q queue + (responses q self.effects + 0)
        ≡ responses q self.effects + same q queue =
      omega arith in
    rw one (or_sent-Answers q wait_for_convert_done sent _ (begin queue slave_id self) refl refl)
on_request-Answers q (some other) stale sent queue slave_id self e c =
    (record { queue = c.queue; number = c.number }, rw (sym e) (omega arith))

pub request-Answers :
    (q : ℕ) (stale : ℤ) (sent : Option ℕ) (queue slave_id : ℕ) (self : Sensor)
    → IsConsistent self
    → Answers q (same q queue + due q self) (handle_read_temperature stale sent queue slave_id self)
unfolding handle_read_temperature
request-Answers q stale sent queue slave_id self c =
    on_request-Answers q self.response_queue stale sent queue slave_id self refl c

pub timeout-Answers :
    (q : ℕ) (sent : Option ℕ) (self : Sensor)
    → IsConsistent self
    → self.state ≡ wait_for_convert_timeout
    → Answers q (due q self) (handle_timeout sent self)
unfolding handle_timeout send_read_scratchpad
timeout-Answers q sent self c e =
    or_sent-Answers q wait_for_read_done sent _ self (c.queue ∙ ap (λ s. not (is_idle s)) e) refl
