-- ===== src/OneWire/Messages.antt =====
-- The messages of the kernel, src/ml_one_wire.c, on a little-endian machine.
use monolinux_c_library.Prelude.{
  ℕ, zero, suc, ◌+◌, ◌-◌, ◌*◌, ◌%◌, ◌^◌, List, length, get_or, ltb, ◌==◌, if◌then◌else◌,
}
use monolinux_c_library.Prelude.Int.{ℤ, pos, negsuc, minus}
use monolinux_c_library.OneWire.Sensor.{
  State, wait_for_convert_done, wait_for_read_done, Sensor, Result, done, outside, endless,
  finalize, finalize_with, handle_convert_done,
}

-- `uint16_t` at a place of the buffer.
abbrev pub u16_at : List ℕ → ℕ → ℕ
u16_at buf i = get_or buf i 0 + get_or buf (i + 1) 0 * 256

-- `int16_t` there.
abbrev pub s16_at : List ℕ → ℕ → ℤ
s16_at buf i = let n = u16_at buf i in if ltb n (2 ^ 15) then pos n else negsuc (2 ^ 16 - 1 - n)

-- W1_CMD_WRITE and W1_CMD_READ at a place of the buffer; the latter gives the temperature.
unfoldable pub handle_write : Sensor → State → Sensor
unfolding handle_convert_done
handle_write self wait_for_convert_done = handle_convert_done self
handle_write self _ = self

unfoldable pub handle_read : List ℕ → ℕ → Sensor → State → Result
unfolding finalize_with
handle_read buf i self wait_for_read_done =
    if u16_at buf (i + 2) == 9
    then if ltb (length buf) (i + 6) then outside else finalize (pos 0) (s16_at buf (i + 4)) self
    else done self
handle_read buf i self _ = done self

unfoldable pub handle_cmd : List ℕ → ℕ → Sensor → Result
unfolding handle_write handle_read
handle_cmd buf i self =
    if get_or buf i 0 == 1
    then done (handle_write self self.state)
    else if get_or buf i 0 == 0
    then handle_read buf i self self.state
    else done self

-- What follows on a result.
abbrev pub and_then : Result → (Sensor → Result) → Result
and_then (done self) more = more self
and_then r more = r

-- The loop over the commands, with next_cmd: `start` is the place of `data` in the buffer, and `len`
-- its length. Each round takes at least 4 bytes, so `len` bounds the rounds.
unfoldable pub cmd_loop : ℕ → List ℕ → ℕ → ℕ → ℕ → Sensor → Result
unfolding handle_cmd
cmd_loop zero buf start len offset self = done self
cmd_loop (suc rounds) buf start len offset self =
    let i = start + offset in
    let size = 4 + u16_at buf (i + 2) in
    let more =
      and_then (handle_cmd buf i self)
        (λ self'. cmd_loop rounds buf start len (offset + size) self') in
    if ltb len (offset + 4)
    then done self
    else if ltb (length buf) (i + 4)
    then outside
    else if ltb len (offset + size)
    then done self
    else more

-- ds18b20_handle_read_temperature_slave_response, on the message at a place of the buffer.
unfoldable pub handle_slave_response : List ℕ → ℕ → Sensor → Result
unfolding cmd_loop
handle_slave_response buf i self =
    let status = get_or buf (i + 1) 0 in
    let len = u16_at buf (i + 2) in
    if status == 0
    then cmd_loop (len + 1) buf (i + 12) len 0 self
    else finalize (minus status) (pos 0) self

-- `(uint32_t)seqno`.
abbrev pub to_u32 : ℤ → ℕ
to_u32 (pos n) = n % 2 ^ 32
to_u32 (negsuc n) = 2 ^ 32 - 1 - n % 2 ^ 32

-- W1_SLAVE_CMD.
unfoldable pub handle_nl_msg : ℕ → List ℕ → ℕ → Sensor → Result
unfolding handle_slave_response
handle_nl_msg seq buf offset self =
    if get_or buf offset 0 == 5
    then if seq == to_u32 self.seqno then handle_slave_response buf offset self else done self
    else done self

-- The loop of handle_message_done over the data of a `struct cn_msg`. Its offset is a `uint16_t`, and
-- nothing bounds the rounds: `endless` stands for more of them than were asked for.
unfoldable pub message_loop : ℕ → ℕ → ℕ → List ℕ → ℕ → Sensor → Result
unfolding handle_nl_msg
message_loop zero seq len buf offset self = if offset == len then done self else endless
message_loop (suc rounds) seq len buf offset self =
    let next = (offset + (12 + u16_at buf (offset + 2))) % 2 ^ 16 in
    let more =
      and_then (handle_nl_msg seq buf offset self)
        (λ self'. message_loop rounds seq len buf next self') in
    if offset == len then done self else if ltb (length buf) (offset + 12) then outside else more
