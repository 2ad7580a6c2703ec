-- ===== src/OneWire/Stale.antt =====
-- What src/ml_one_wire.c does with a message of the timer that comes late, and with a message whose
-- length turns the offset back.
use monolinux_c_library.Prelude.{
  ℕ, zero, suc, ◌+◌, ◌%◌, ◌^◌, ◌≡◌, ◌≢◌, ◌≤◌, ◌<◌, refl, ap, List, [], ◌∷◌, ◌++◌, none, replicate,
  true, false, arith, length, get_or, ltb, ◌==◌,
}
use monolinux_c_library.Prelude.Int.{pos}
use monolinux_c_library.OneWire.Sensor.{
  wait_for_read_done, Sensor, done, null, endless, effect, send, next_seqno, handle_timeout,
  send_read_scratchpad, send_nl_message, or_finalize, finalize_with,
}
use monolinux_c_library.OneWire.Messages.{
  u16_at, to_u32, handle_cmd, handle_read, cmd_loop, handle_slave_response, handle_nl_msg,
  message_loop,
}

-- Where the first message is for no slave and its length field is 65524, which turns the offset back
-- to 0, its header is in the buffer and the length of all messages is not 0, the loop of
-- handle_message_done does not end within any number of rounds.
pub message_loop-endless :
    (rounds seq len : ℕ) (buf : List ℕ) (self : Sensor)
    → get_or buf 0 0 ≢ 5
    → u16_at buf 2 ≡ 65524
    → 12 ≤ length buf
    → 0 < len
    → message_loop rounds seq len buf 0 self ≡ endless
unfolding message_loop handle_nl_msg
message_loop-endless zero seq len buf self t u b l =
    let more : (0 == len) ≡ false = ground arith in rw more refl
message_loop-endless (suc rounds) seq len buf self t u b l =
    let more : (0 == len) ≡ false = ground arith in
    let inside : ltb (length buf) 12 ≡ false = ground arith in
    let other : (get_or buf 0 0 == 5) ≡ false = ground arith in
    let back : (0 + (12 + u16_at buf 2)) % 2 ^ 16 ≡ 0 = omega (arith, u) in
    let kept : handle_nl_msg seq buf 0 self ≡ done self = rw other refl in
    rw (more, inside, kept, back) (message_loop-endless rounds seq len buf self t u b l)

-- The response to a read of the scratchpad.
abbrev pub scratchpad : List ℕ → List ℕ
scratchpad content = (5 ∷ 0 ∷ 13 ∷ 0 ∷ replicate 8 0) ++ ((0 ∷ 0 ∷ 9 ∷ 0 ∷ []) ++ content)

abbrev reading : ℕ → Sensor → Sensor
reading seqno self = record self {
  cn_seqno = seqno;
  seqno = pos seqno;
  state = wait_for_read_done;
  response_queue = none;
}

scratchpad-null :
    (self : Sensor) (seqno a b c d e f g h i : ℕ)
    → handle_slave_response
        (scratchpad (a ∷ b ∷ c ∷ d ∷ e ∷ f ∷ g ∷ h ∷ i ∷ []))
        0
        (reading seqno self)
      ≡ null
unfolding handle_slave_response cmd_loop handle_cmd handle_read finalize_with
scratchpad-null self seqno a b c d e f g h i = refl

numbered-null :
    (self : Sensor) (seqno a b c d e f g h i : ℕ)
    → message_loop 1
        (to_u32 (pos seqno))
        25
        (scratchpad (a ∷ b ∷ c ∷ d ∷ e ∷ f ∷ g ∷ h ∷ i ∷ []))
        0
        (reading seqno self)
      ≡ null
unfolding message_loop handle_nl_msg
numbered-null self seqno a b c d e f g h i =
    let same : (seqno % 2 ^ 32 == seqno % 2 ^ 32) ≡ true = ground arith in
    rw (same, scratchpad-null self seqno a b c d e f g h i) refl

-- Where a message of the timer comes while no response queue is kept, and the last number is below
-- 1000, the sensor asks for a temperature all the same, and the response of the kernel, whatever
-- its 9 bytes, is put on a null queue.
pub handle_timeout-null :
    (self : Sensor) (a b c d e f g h i : ℕ)
    → self.response_queue ≡ none
    → self.cn_seqno < 1000
    → (self' : Sensor) × (handle_timeout none self ≡ done self')
      × (message_loop 1
            (to_u32 self'.seqno)
            25
            (scratchpad (a ∷ b ∷ c ∷ d ∷ e ∷ f ∷ g ∷ h ∷ i ∷ []))
            0
            self'
          ≡ null)
unfolding handle_timeout send_read_scratchpad send_nl_message next_seqno or_finalize
handle_timeout-null self a b c d e f g h i q n =
    let more : (self.cn_seqno == 1000) ≡ false = ground arith in
    let commands = (1 ∷ 0 ∷ 1 ∷ 0 ∷ 190 ∷ []) ++ ((0 ∷ 0 ∷ 9 ∷ 0 ∷ []) ++ replicate 9 0) in
    let self' = effect (send self.id (self.cn_seqno + 1) commands) self in
    (
      reading (self.cn_seqno + 1) self',
      rw more (
          ap
            (λ r. done (record self' {
              cn_seqno = self.cn_seqno + 1;
              seqno = pos (self.cn_seqno + 1);
              state = wait_for_read_done;
              response_queue = r;
            }))
            q),
      numbered-null self' (self.cn_seqno + 1) a b c d e f g h i,
    )
