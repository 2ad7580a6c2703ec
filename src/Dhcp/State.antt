-- ===== src/Dhcp/State.antt =====
-- The data of src/ml_dhcp_client.c and of `struct ml_dhcp_client_t` in include/ml/ml.h.
use monolinux_c_library.Prelude.{ℕ, ◌+◌, ◌-◌, ◌/◌, ◌%◌, ◌^◌, List, Bool, ltb, if◌then◌else◌}
use monolinux_c_library.Prelude.Int.{ℤ, pos, negsuc}
use monolinux_c_library.Prelude.Words.{be32, u8, shr}

pub data State : Type 0 where
  init selecting requesting bound renewing : State

pub data PacketType : Type 0 where
  offer ack nak no_packet : PacketType

-- Addresses are `s_addr` values, in network order. `fds[SOCK_IX].fd` is `sock`; the four timer
-- descriptors are known by their slot in the poll list.
pub record Client : Type 0 where
  pub state : State
  pub packet_type : PacketType
  pub ip_address : ℕ
  pub subnet_mask : ℕ
  pub gateway : ℕ
  pub dns : ℕ
  pub lease_time : ℤ
  pub renewal_interval : ℤ
  pub rebinding_time : ℤ
  pub renewal_timer_expired : Bool
  pub rebinding_timer_expired : Bool
  pub response_timer_expired : Bool
  pub init_timer_expired : Bool
  pub is_packet_socket : Bool
  pub server : ℕ
  pub mac_address : List ℕ
  pub sock : ℤ

-- The four timers of the poll list: RENEW_IX, REBIND_IX, RESP_IX and INIT_IX.
pub data Slot : Type 0 where
  renew rebind resp start : Slot

-- `ntohl` and `htonl` on a little-endian host: the bytes in reverse order.
unfoldable pub ntohl : ℕ → ℕ
ntohl x = be32 (u8 x) (u8 (shr x 8)) (u8 (shr x 16)) (u8 (shr x 24))

-- A `uint32_t` converted to `int`.
unfoldable pub to_int : ℕ → ℤ
to_int x = if ltb x (2 ^ 31) then pos x else negsuc (2 ^ 32 - 1 - x)

-- An `int` converted to `uint32_t`, as the shifts of a packed value do.
unfoldable pub from_int : ℤ → ℕ
from_int (pos n) = n % 2 ^ 32
from_int (negsuc n) = 2 ^ 32 - 1 - n % 2 ^ 32

-- `x / 2` of an `int` rounds towards zero.
unfoldable pub half : ℤ → ℤ
half (pos n) = pos (n / 2)
half (negsuc n) = if ltb n 1 then pos 0 else negsuc ((n + 1) / 2 - 1)
