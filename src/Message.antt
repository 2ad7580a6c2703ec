-- ===== src/Message.antt =====
-- Reference-counted messages, src/ml_message.c, and the header arithmetic of src/internal.h.
-- The heap maps the address of a header to its contents; a header that was freed is gone.
pub mod Counting
mod Tests
use monolinux_c_library.Prelude.{
  ℕ, ◌+◌, ◌-◌, List, [], ◌∷◌, ◌++◌, Option, none, some, Bool, true, false, ◌==◌, if◌then◌else◌,
}
use monolinux_c_library.Prelude.Int.{ℤ, pos, negsuc, ◌+ℤ◌, ◌-ℤ◌}

-- `struct ml_message_header_t`; an identifier and a function are known by their addresses.
pub record Header : Type 0 where
  pub uid : ℕ
  pub count : ℤ
  pub on_free : Option ℕ

-- `released` lists the calls of `on_free`, the last one last, each with its message.
pub record Heap : Type 0 where
  pub header : ℕ → Option Header
  pub released : List (ℕ × ℕ)

-- `none` is an access to a header that is not there, such as one that was freed.
abbrev pub M : Type 0 → Type 0
M A = Heap → Option (A × Heap)

abbrev pub sizeof_header : ℕ
sizeof_header = 24

unfoldable pub message_to_header : ℕ → ℕ
message_to_header message = message - sizeof_header

unfoldable pub message_from_header : ℕ → ℕ
message_from_header header = header + sizeof_header

abbrev pub update {ℓ} : {A : Type ℓ} → (ℕ → A) → ℕ → A → ℕ → A
update f p v q = if p == q then v else f q

-- `header` is the block that xmalloc returns.
unfoldable pub alloc : ℕ → ℕ → M ℕ
unfolding message_from_header
alloc header uid heap = some (
  message_from_header header,
  record heap {
    header = update heap.header header (some (record { uid = uid; count = pos 1; on_free = none }));
  },
)

unfoldable pub set_on_free : ℕ → Option ℕ → M (Unit {0})
unfolding message_to_header
set_on_free message on_free heap =
    let p = message_to_header message in
    elim (heap.header p) [
      | none ↦ none
      | some h ↦ some (
        tt,
        record heap { header = update heap.header p (some (record h { on_free = on_free })) },
      )
    ]

abbrev is_zero : ℤ → Bool
is_zero (pos n) = n == 0
is_zero (negsuc n) = false

-- The call of `on_free`, if one is set.
abbrev pub call_on_free : Option ℕ → ℕ → List (ℕ × ℕ)
call_on_free none message = []
call_on_free (some func) message = (func, message) ∷ []

unfoldable pub free : ℕ → M (Unit {0})
unfolding message_to_header ◌-ℤ◌
free message heap =
    let p = message_to_header message in
    elim (heap.header p) [
      | none ↦ none
      | some h ↦
          let count = h.count -ℤ pos 1 in
          some (
            tt,
            if is_zero count
                then record {
                  header = update heap.header p none;
                  released = heap.released ++ call_on_free h.on_free message;
                }
                else record heap {
                  header = update heap.header p (some (record h { count = count }));
                },
          )
    ]

unfoldable pub share : ℕ → ℤ → M (Unit {0})
unfolding message_to_header ◌+ℤ◌
share message count heap =
    let p = message_to_header message in
    elim (heap.header p) [
      | none ↦ none
      | some h ↦ some (
        tt,
        record heap {
          header = update heap.header p (some (record h { count = h.count +ℤ count }));
        },
      )
    ]
