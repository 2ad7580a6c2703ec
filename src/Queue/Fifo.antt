-- ===== src/Queue/Fifo.antt =====
-- What the queue promises: a first-in first-out list of at most `cap` messages.
use monolinux_c_library.Prelude.{ℕ, List, [], ◌∷◌, ◌++◌, length, ◌==◌, if◌then◌else◌}
use monolinux_c_library.Queue.Ring.{Attempt, waits, done}

unfoldable pub fifo_get : List ℕ → Attempt (ℕ × List ℕ)
fifo_get [] = waits
fifo_get (m ∷ ms) = done (m, ms)

unfoldable pub fifo_put : ℕ → List ℕ → ℕ → Attempt (List ℕ)
fifo_put cap ms m = if length ms == cap then waits else done (ms ++ (m ∷ []))
