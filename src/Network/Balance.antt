-- ===== src/Network/Balance.antt =====
-- How often the calls of src/ml_network.c opened and closed a descriptor, and how often they
-- allocated and freed a block.
use monolinux_c_library.Prelude.{ℕ, ◌+◌, ◌≡◌, [], ◌∷◌, not, ◌&&◌, if◌then◌else◌}
use monolinux_c_library.Prelude.Int.{ℤ, is_zero, is_failed, same_fd}
use monolinux_c_library.Network.System.{Call, socket, close, malloc, free, Answer, Trace}

abbrev pub opening : Call → Answer → ℤ → ℕ
opening (socket domain type) a fd = if not (is_failed a.res) && same_fd a.res fd then 1 else 0
opening _ a fd = 0

-- How often a descriptor was opened, and closed.
unfoldable pub opens : ℤ → Trace → ℕ
opens fd [] = 0
opens fd ((c, a) ∷ tr) = opening c a fd + opens fd tr

abbrev pub closing : Call → ℤ → ℕ
closing (close fd') fd = if same_fd fd' fd then 1 else 0
closing _ fd = 0

unfoldable pub closes : ℤ → Trace → ℕ
closes fd [] = 0
closes fd ((c, a) ∷ tr) = closing c fd + closes fd tr

-- Between two traces a descriptor was opened as often as it was closed.
abbrev pub IsBalanced : ℤ → Trace → Trace → Type 0
IsBalanced fd tr tr' = opens fd tr' + closes fd tr ≡ closes fd tr' + opens fd tr

abbrev pub allocating : Call → Answer → ℤ → ℕ
allocating (malloc size) a block = if not (is_zero a.res) && same_fd a.res block then 1 else 0
allocating _ a block = 0

abbrev pub freeing : Call → ℤ → ℕ
freeing (free block') block = if same_fd block' block then 1 else 0
freeing _ block = 0

unfoldable pub allocations : ℤ → Trace → ℕ
allocations block [] = 0
allocations block ((c, a) ∷ tr) = allocating c a block + allocations block tr

unfoldable pub frees : ℤ → Trace → ℕ
frees block [] = 0
frees block ((c, a) ∷ tr) = freeing c block + frees block tr

-- Between two traces a block was freed as often as it was allocated.
abbrev pub IsFreed : ℤ → Trace → Trace → Type 0
IsFreed block tr tr' =
    allocations block tr' + frees block tr ≡ frees block tr' + allocations block tr
