-- ===== src/Timer/Stop.antt =====
-- Starting and stopping a timer, and the messages of a timer that was stopped.
use monolinux_c_library.Prelude.{
  ℕ, zero, suc, ◌+◌, ◌-◌, ◌*◌, ◌^◌, ◌≤◌, ◌<◌, ◌≡◌, ◌⊎◌, inl, inr, refl, ap, ap₂, ◌∙◌, List, [], ◌∷◌,
  Bool, true, false, replicate, ◌==◌, ltb, ltb→lt, Bool-cases, if◌then◌else◌, arith,
}
use monolinux_c_library.Prelude.Int.{pos}
use monolinux_c_library.Prelude.Words.{add32}
use monolinux_c_library.Timer.Deltas.{Node, node, timer_list_insert, timer_list_remove}
use monolinux_c_library.Timer.Handler.{Handler, div_ceil, timer_stop, timer_start, is_message_valid}
use monolinux_c_library.Timer.Remaining.{
  total, remaining, insert_sorted, without, remaining-insert, remaining-remove,
}
use monolinux_c_library.Timer.Tick.{IsRunning, IsValid, total-insert}

-- Up to UINT_MAX - 99 milliseconds the ticks are the timeout in units of 100 ms, rounded up.
pub div_ceil_bounds :
    (ms : ℕ) → ms ≤ 2 ^ 32 - 100 → (ms ≤ 100 * div_ceil ms) × (100 * div_ceil ms < ms + 100)
unfolding div_ceil
div_ceil_bounds ms h = omega arith

-- A longer timeout wraps around to no ticks at all.
pub div_ceil_wraps : (ms : ℕ) → 2 ^ 32 - 100 < ms → ms < 2 ^ 32 → div_ceil ms ≡ 0
unfolding div_ceil
div_ceil_wraps ms h l = omega arith

div_ceil-le : (ms : ℕ) → div_ceil ms ≤ 42949672
unfolding div_ceil
div_ceil-le ms = omega arith

total-remove :
    (t : ℕ) (ns : List Node) → total ns < 2 ^ 32 → total (timer_list_remove t ns) ≤ total ns
unfolding timer_list_remove
total-remove t [] h = omega arith
total-remove t (n ∷ []) h = ground arith
total-remove t (n ∷ m ∷ ns) h = ground (arith, total-remove t (m ∷ ns) (omega arith))

IsRunning-remove :
    (t : ℕ) (ns : List Node) → total ns < 2 ^ 32 → IsRunning ns → IsRunning (timer_list_remove t ns)
unfolding timer_list_remove
IsRunning-remove t [] h r = tt
IsRunning-remove t (n ∷ []) h r = ground arith
IsRunning-remove t (n ∷ m ∷ ns) h r = ground arith

IsRunning-insert :
    (t d : ℕ) (ns : List Node) → 0 < d → IsRunning ns → IsRunning (timer_list_insert t d ns)
unfolding timer_list_insert
IsRunning-insert t d [] p r = ground arith
IsRunning-insert t d (n ∷ ns) p r = ground arith

-- Stopping a timer keeps the handler valid.
pub timer_stop-IsValid : (t : ℕ) (s : Handler) → IsValid s → IsValid (timer_stop t s)
unfolding timer_stop
timer_stop-IsValid t s v = record {
  running = IsRunning-remove t s.list v.total_fits v.running;
  total_fits = omega (arith, v.total_fits, total-remove t s.list v.total_fits);
  repeats_fit = λ r. ground (arith, v.repeats_fit r, v.repeats_fit t);
}

start_list :
    (t initial repeat : ℕ) (s : Handler)
    → (timer_start t initial repeat s).list
      ≡ timer_list_insert t (add32 (div_ceil initial) 1) (timer_stop t s).list
unfolding timer_start
start_list t initial repeat s = ground arith

start_repeats :
    (t initial repeat r : ℕ) (s : Handler)
    → ((timer_start t initial repeat s).timer r).repeat_ticks
      ≡ (if t == r then div_ceil repeat else (s.timer r).repeat_ticks)
unfolding timer_start
start_repeats t initial repeat r s = ground arith

stop_list : (t : ℕ) (s : Handler) → (timer_stop t s).list ≡ timer_list_remove t s.list
unfolding timer_stop
stop_list t s = refl

started :
    (t initial repeat : ℕ) (s : Handler)
    → IsValid s
    → (remaining 0 (timer_start t initial repeat s).list
        ≡ insert_sorted (node t (div_ceil initial + 1)) (without t (remaining 0 s.list)))
      × IsValid (timer_start t initial repeat s)
started t initial repeat s v =
    let w = timer_stop-IsValid t s v in
    let l = start_list t initial repeat s in
    let d : add32 (div_ceil initial) 1 ≡ div_ceil initial + 1 =
      omega (arith, div_ceil-le initial) in
    (
      ap (remaining 0) (l ∙ ap (λ x. timer_list_insert t x (timer_stop t s).list) d)
          ∙ remaining-insert t (div_ceil initial + 1) (timer_stop t s).list
              (omega (arith, div_ceil-le initial)) w.total_fits
          ∙ ap (insert_sorted (node t (div_ceil initial + 1)))
              (ap (remaining 0) (stop_list t s) ∙ remaining-remove t s.list v.total_fits),
      record {
        running =
            rw (l, d)
              (IsRunning-insert t (div_ceil initial + 1) (timer_stop t s).list (omega arith)
                w.running);
        total_fits =
            rw (l, d)
              (omega (
                arith,
                w.total_fits,
                div_ceil-le initial,
                total-insert t (div_ceil initial + 1) (timer_stop t s).list
                    (omega (arith, div_ceil-le initial)) w.total_fits,
              ));
        repeats_fit = λ r.
            ground (arith, start_repeats t initial repeat r s, div_ceil-le repeat, v.repeats_fit r);
      },
    )

-- The ticks of 100 ms that cover so many milliseconds, with less than a tick to spare; but none at
-- all for the last 99 values of an `unsigned int`, whose sum wraps.
abbrev pub Rounded : ℕ → ℕ → Type 0
Rounded ms ticks =
    ((ms ≤ 100 * ticks) × (100 * ticks < ms + 100)) ⊎ ((2 ^ 32 - 100 < ms) × (ticks ≡ 0))

div_ceil-Rounded : (ms : ℕ) → ms < 2 ^ 32 → Rounded ms (div_ceil ms)
div_ceil-Rounded ms h = elim (Bool-cases (ltb (2 ^ 32 - 100) ms)) [
  | inl p ↦ inr (ltb→lt _ _ p, div_ceil_wraps ms (ltb→lt _ _ p) h)
  | inr p ↦ inl (div_ceil_bounds ms (ground (arith, p)))
]

-- Starting a timer on a valid handler, with times of less than 2^32 ms, takes it out of the list if it was active, and inserts it by
-- its expiry, one tick later than its timeout in units of 100 ms rounded up, which covers a start
-- just before a tick. The ticks of its repetition are rounded up too. A timeout above UINT_MAX - 99
-- ms wraps around to no ticks at all. The ticks that any other timer waits are unchanged, and the
-- handler stays valid.
pub timer_start_lem :
    (t initial repeat : ℕ) (s : Handler)
    → IsValid s
    → initial < 2 ^ 32
    → repeat < 2 ^ 32
    → (ticks : ℕ) × Rounded initial ticks
      × (remaining 0 (timer_start t initial repeat s).list
          ≡ insert_sorted (node t (ticks + 1)) (without t (remaining 0 s.list)))
      × Rounded repeat ((timer_start t initial repeat s).timer t).repeat_ticks
      × IsValid (timer_start t initial repeat s)
timer_start_lem t initial repeat s v h k =
    let (list, valid) = started t initial repeat s v in
    let e : ((timer_start t initial repeat s).timer t).repeat_ticks ≡ div_ceil repeat =
      ground (arith, start_repeats t initial repeat t s) in
    (div_ceil initial, div_ceil-Rounded initial h, list, rw e (div_ceil-Rounded repeat k), valid)

-- The results of `n` calls of ml_timer_is_message_valid, and the handler after them.
unfoldable pub validate : ℕ → ℕ → Handler → List Bool × Handler
validate zero t s = ([], s)
validate (suc n) t s =
    let (ok, s') = is_message_valid t s in let (oks, s'') = validate n t s' in (ok ∷ oks, s'')

valid_step :
    (n t : ℕ) (s : Handler)
    → (s.timer t).number_of_timeouts_to_ignore ≡ pos (suc n)
    → ((is_message_valid t s).0 ≡ false)
      × (((is_message_valid t s).1.timer t).number_of_timeouts_to_ignore ≡ pos n)
unfolding is_message_valid
valid_step n t s e = ground arith

valid_last :
    (t : ℕ) (s : Handler)
    → (s.timer t).number_of_timeouts_to_ignore ≡ pos 0
    → (is_message_valid t s).0 ≡ true
unfolding is_message_valid
valid_last t s e = ground arith

stale :
    (n t : ℕ) (s : Handler)
    → (s.timer t).number_of_timeouts_to_ignore ≡ pos n
    → ((validate n t s).0 ≡ replicate n false) × ((is_message_valid t (validate n t s).1).0 ≡ true)
unfolding validate
stale zero t s e = (refl, valid_last t s e)
stale (suc n) t s e =
    let (wrong, less) = valid_step n t s e in
    let (rest, last) = stale n t (is_message_valid t s).1 less in (ap₂ ◌∷◌ wrong rest, last)

stop_ignores :
    (t : ℕ) (s : Handler)
    → ((timer_stop t s).timer t).number_of_timeouts_to_ignore
      ≡ (s.timer t).number_of_outstanding_timeouts
unfolding timer_stop
stop_ignores t s = ground arith

-- A timer that is stopped with `n` timeout messages in flight reports exactly those `n` as invalid:
-- the next `n` checks of its messages fail, and the one after them, of a message sent by a later
-- start, succeeds.
pub stop-validate :
    (n t : ℕ) (s : Handler)
    → (s.timer t).number_of_outstanding_timeouts ≡ pos n
    → ((validate n t (timer_stop t s)).0 ≡ replicate n false)
      × ((is_message_valid t (validate n t (timer_stop t s)).1).0 ≡ true)
stop-validate n t s e = stale n t (timer_stop t s) (stop_ignores t s ∙ e)
