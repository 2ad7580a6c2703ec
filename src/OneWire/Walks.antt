-- ===== src/OneWire/Walks.antt =====
-- The walks over the messages of the kernel in src/ml_one_wire.c keep count of the responses.
use monolinux_c_library.Prelude.{
  ℕ, zero, suc, ◌+◌, ◌-◌, ◌%◌, ◌^◌, ◌≡◌, ◌<◌, refl, sym, ap, ◌∙◌, List, Bool, true, false, not,
  arith, length, get_or, ltb, ◌==◌, if◌then◌else◌, Bool-cases, inl, inr,
}
use monolinux_c_library.Prelude.Int.{pos, negsuc, minus}
use monolinux_c_library.OneWire.Sensor.{
  State, idle, wait_for_convert_done, wait_for_convert_timeout, wait_for_read_done, Sensor, Result,
  done, outside, null, endless, finalize, handle_convert_done,
}
use monolinux_c_library.OneWire.Messages.{
  u16_at, s16_at, handle_write, handle_read, handle_cmd, and_then, cmd_loop, handle_slave_response,
  to_u32, handle_nl_msg, message_loop,
}
use monolinux_c_library.OneWire.Answers.{
  is_idle, is_pending, IsConsistent, due, Answers, finalize-Answers,
}

write-Answers :
    (q : ℕ) (state : State) (self : Sensor)
    → state ≡ self.state
    → IsConsistent self
    → Answers q (due q self) (done (handle_write self state))
unfolding handle_write handle_convert_done
write-Answers q wait_for_convert_done self e c =
    (record { queue = c.queue ∙ ap (λ s. not (is_idle s)) (sym e); number = refl }, omega arith)
write-Answers q idle self e c = (c, refl)
write-Answers q wait_for_convert_timeout self e c = (c, refl)
write-Answers q wait_for_read_done self e c = (c, refl)

if-Answers :
    (q : ℕ) (b : Bool) (n : ℕ) (x y : Result)
    → Answers q n x
    → Answers q n y
    → Answers q n (if b then x else y)
if-Answers q true n x y l r = l
if-Answers q false n x y l r = r

read-Answers :
    (q : ℕ) (buf : List ℕ) (i : ℕ) (state : State) (self : Sensor)
    → state ≡ self.state
    → IsConsistent self
    → Answers q (due q self) (handle_read buf i self state)
unfolding handle_read
read-Answers q buf i wait_for_read_done self e c =
    if-Answers q (u16_at buf (i + 2) == 9) (due q self) _ (done self)
      (if-Answers q (ltb (length buf) (i + 6)) (due q self) outside _ (omega arith) (
        finalize-Answers q (pos 0) (s16_at buf (i + 4)) self
          (c.queue ∙ ap (λ s. not (is_idle s)) (sym e))))
      (c, refl)
read-Answers q buf i idle self e c = (c, refl)
read-Answers q buf i wait_for_convert_done self e c = (c, refl)
read-Answers q buf i wait_for_convert_timeout self e c = (c, refl)

cmd-Answers :
    (q : ℕ) (buf : List ℕ) (i : ℕ) (self : Sensor)
    → IsConsistent self
    → Answers q (due q self) (handle_cmd buf i self)
unfolding handle_cmd
cmd-Answers q buf i self c =
    if-Answers q (get_or buf i 0 == 1) (due q self) (done (handle_write self self.state)) _
      (write-Answers q self.state self refl c)
      (if-Answers q (get_or buf i 0 == 0) (due q self) (handle_read buf i self self.state)
        (done self) (read-Answers q buf i self.state self refl c) (c, refl))

then-Answers :
    (q : ℕ) (n : ℕ) (r : Result) (more : Sensor → Result)
    → Answers q n r
    → ((self : Sensor) → IsConsistent self → due q self ≡ n → Answers q n (more self))
    → Answers q n (and_then r more)
then-Answers q n (done self) more a f = f self a.0 a.1
then-Answers q n outside more a f = a
then-Answers q n null more a f = a
then-Answers q n endless more a f = a

cmd_loop-Answers :
    (q : ℕ) (rounds : ℕ) (buf : List ℕ) (start len offset n : ℕ) (self : Sensor)
    → IsConsistent self
    → due q self ≡ n
    → Answers q n (cmd_loop rounds buf start len offset self)
unfolding cmd_loop
cmd_loop-Answers q zero buf start len offset n self c e = (c, e)
cmd_loop-Answers q (suc rounds) buf start len offset n self c e =
    let i = start + offset in
    let size = 4 + u16_at buf (i + 2) in
    if-Answers q (ltb len (offset + 4)) n (done self) _ (c, e)
      (if-Answers q (ltb (length buf) (i + 4)) n outside _ (omega arith) (
        if-Answers q (ltb len (offset + size)) n (done self) _ (c, e)
          (then-Answers q n (handle_cmd buf i self) _ (rw e at (cmd-Answers q buf i self c))
            (λ self' c' e'.
              cmd_loop-Answers q rounds buf start len (offset + size) n self' c' e'))))

response-Answers :
    (q : ℕ) (buf : List ℕ) (i : ℕ) (self : Sensor)
    → IsConsistent self
    → is_pending self.response_queue ≡ true
    → Answers q (due q self) (handle_slave_response buf i self)
unfolding handle_slave_response
response-Answers q buf i self c p =
    let len = u16_at buf (i + 2) in
    if-Answers q (get_or buf (i + 1) 0 == 0) (due q self)
      (cmd_loop (len + 1) buf (i + 12) len 0 self)
      (finalize (minus (get_or buf (i + 1) 0)) (pos 0) self)
      (cmd_loop-Answers q (len + 1) buf (i + 12) len 0 (due q self) self c refl)
      (finalize-Answers q (minus (get_or buf (i + 1) 0)) (pos 0) self p)

-- The number of a message that is not -1 belongs to a reading.
numbered :
    (seq : ℕ) (self : Sensor)
    → IsConsistent self
    → seq < 2 ^ 32 - 1
    → (seq == to_u32 self.seqno) ≡ true
    → is_pending self.response_queue ≡ true
numbered seq self c h e = elim (Bool-cases (is_idle self.state)) [
  | inl p ↦ let n : self.seqno ≡ negsuc 0 = rw p at c.number in absurd (ground (arith, ap to_u32 n))
  | inr p ↦ c.queue ∙ ap not p
]

nl_msg-Answers :
    (q : ℕ) (seq : ℕ) (buf : List ℕ) (offset : ℕ) (self : Sensor)
    → IsConsistent self
    → seq < 2 ^ 32 - 1
    → Answers q (due q self) (handle_nl_msg seq buf offset self)
unfolding handle_nl_msg
nl_msg-Answers q seq buf offset self c h = elim (Bool-cases (seq == to_u32 self.seqno)) [
  | inl p ↦ rw p (
      if-Answers q (get_or buf offset 0 == 5) (due q self) _ (done self)
        (response-Answers q buf offset self c (numbered seq self c h p)) (c, refl))
  | inr p ↦ rw p (
      if-Answers q (get_or buf offset 0 == 5) (due q self) (done self) (done self) (c, refl)
        (c, refl))
]

pub message_loop-Answers :
    (q : ℕ) (rounds seq len : ℕ) (buf : List ℕ) (offset n : ℕ) (self : Sensor)
    → IsConsistent self
    → seq < 2 ^ 32 - 1
    → due q self ≡ n
    → Answers q n (message_loop rounds seq len buf offset self)
unfolding message_loop
message_loop-Answers q zero seq len buf offset n self c h e =
    if-Answers q (offset == len) n (done self) endless (c, e) (omega arith)
message_loop-Answers q (suc rounds) seq len buf offset n self c h e =
    let next = (offset + (12 + u16_at buf (offset + 2))) % 2 ^ 16 in
    if-Answers q (offset == len) n (done self) _ (c, e)
      (if-Answers q (ltb (length buf) (offset + 12)) n outside _ (omega arith) (
        then-Answers q n (handle_nl_msg seq buf offset self) _
          (rw e at (nl_msg-Answers q seq buf offset self c h))
          (λ self' c' e'. message_loop-Answers q rounds seq len buf next n self' c' h e')))
