-- ===== src/Utilities/Dd.antt =====
-- ml_dd of src/ml.c. The kernel and malloc() are a parameter that answers each call from the calls
-- made so far.
use monolinux_c_library.Prelude.{
  ℕ, zero, suc, ◌-◌, List, ◌∷◌, Option, none, some, Bool, false, not, ltb, ◌==◌, if◌then◌else◌,
}
use monolinux_c_library.Prelude.Int.{ℤ, pos, negsuc, is_zero, is_failed, minus}

-- `open_input` and `open_output` are open() of the two files.
pub data Call : Type 0 where
  open_input : Call
  open_output : Call
  malloc : ℕ → Call
  read : ℤ → ℕ → Call
  write : ℤ → List ℕ → Call
  close : ℤ → Call
  free : Call

-- The result, which is -1 for a null pointer, `errno`, and the bytes that were read.
pub record Answer : Type 0 where
  pub res : ℤ
  pub errno : ℕ
  pub content : List ℕ

-- The calls so far, the last one first.
abbrev pub Trace : Type 0
Trace = List (Call × Answer)

abbrev pub is_size : ℕ → ℤ → Bool
is_size size (pos n) = n == size
is_size size (negsuc n) = false

-- -EGENERAL.
abbrev pub general : ℤ
general = negsuc 999

-- The result of read() or write() as one of dd_copy_chunk.
unfoldable pub size_result : ℕ → Answer → ℤ
size_result chunk_size a =
    if is_failed a.res
    then minus a.errno
    else if not (is_size chunk_size a.res)
    then general
    else pos 0

module _ (answer : Trace → Call → Answer) where
  unfoldable pub call : Call → Trace → Trace
  call c tr = (c, answer tr c) ∷ tr

  unfoldable pub dd_copy_chunk : ℕ → ℤ → ℤ → Trace → Trace × ℤ
  unfolding call size_result
  dd_copy_chunk chunk_size fdin fdout tr =
      let got = answer tr (read fdin chunk_size) in
      let tr' = call (read fdin chunk_size) tr in
      let put = answer tr' (write fdout got.content) in
      if is_zero (size_result chunk_size got)
      then (call (write fdout got.content) tr', size_result chunk_size put)
      else (tr', size_result chunk_size got)

  -- The loop. `none` stands for more rounds than were asked for; where the chunks are not empty the
  -- size bounds the rounds.
  unfoldable pub dd_loop : ℕ → ℕ → ℕ → ℤ → ℤ → Trace → Option (Trace × ℤ)
  unfolding dd_copy_chunk
  dd_loop rounds zero chunk_size fdin fdout tr = some (tr, pos 0)
  dd_loop zero (suc total_size) chunk_size fdin fdout tr = none
  dd_loop (suc rounds) (suc total_size) chunk_size fdin fdout tr =
      let size = if ltb (suc total_size) chunk_size then suc total_size else chunk_size in
      let (tr', res) = dd_copy_chunk size fdin fdout tr in
      let more = dd_loop rounds (suc total_size - size) size fdin fdout tr' in
      if is_zero res then more else some (tr', res)

  -- The files are closed and the buffer is freed, in the order of the success and of the labels.
  abbrev pub dd_end : ℤ → ℤ → Option (Trace × ℤ) → Option (Trace × ℤ)
  dd_end fdin fdout none = none
  dd_end fdin fdout (some (tr, res)) =
      if is_zero res
      then some (call free (call (close fdout) (call (close fdin) tr)), res)
      else some (call (close fdin) (call (close fdout) (call free tr)), res)

  unfoldable pub dd : ℕ → ℕ → ℕ → Trace → Option (Trace × ℤ)
  unfolding dd_loop
  dd rounds total_size chunk_size tr =
      let input = answer tr open_input in
      let tr1 = call open_input tr in
      let output = answer tr1 open_output in
      let tr2 = call open_output tr1 in
      let buf = answer tr2 (malloc chunk_size) in
      let tr3 = call (malloc chunk_size) tr2 in
      if is_failed input.res
      then some (tr1, minus input.errno)
      else if is_failed output.res
      then some (call (close input.res) tr2, minus output.errno)
      else if is_failed buf.res
      then some (call (close input.res) (call (close output.res) tr3), minus buf.errno)
      else dd_end input.res output.res
          (dd_loop rounds total_size chunk_size input.res output.res tr3)
