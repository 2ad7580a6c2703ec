-- ===== src/Dhcp/System.antt =====
-- The system calls of src/ml_dhcp_client.c. The kernel is a parameter: it answers each call from the
-- calls made so far. Log output is left out.
use monolinux_c_library.Prelude.{ℕ, List, ◌∷◌, Bool, true, false, not, length, ◌==◌, if◌then◌else◌}
use monolinux_c_library.Prelude.Int.{ℤ, pos, negsuc}
pub use monolinux_c_library.Prelude.Int.{is_zero, is_failed}
use monolinux_c_library.Dhcp.State.{Client, Slot, renew, rebind, resp, start}
use monolinux_c_library.Dhcp.Pack.{discover_packet, request_packet, renew_packet}

-- A call with the arguments that matter.
pub data Call : Type 0 where
  close : ℤ → Call
  packet_socket : Call
  bind_packet : ℤ → Call
  setsockopt : ℤ → Call
  udp_socket : Call
  bind_udp : ℤ → Call
  settime : Slot → ℤ → ℕ → Call
  read_timer : Slot → Call
  timer_create : Slot → Call
  broadcast : ℤ → List ℕ → Call
  send : ℤ → ℕ → List ℕ → Call
  configure : ℕ → ℕ → Call
  add_route : ℕ → Call
  sleep : Call
  interface_index : Call
  interface_mac_address : Call
  thread_create : Call

-- The calls so far with their results, the last one first.
abbrev pub Trace : Type 0
Trace = List (Call × ℤ)

pub record System : Type 0 where
  pub client : Client
  pub trace : Trace

abbrev pub is_size : ℤ → ℕ → Bool
is_size (pos n) size = n == size
is_size (negsuc n) size = false

module _ (answer : Trace → Call → ℤ) where
  unfoldable pub call : Call → System → System
  call c s = record s { trace = (c, answer s.trace c) ∷ s.trace }

  -- The result that `call c s` gets.
  abbrev pub result : Call → System → ℤ
  result c s = answer s.trace c

  -- setup_packet_socket: the socket is bound, or closed again, or was not opened.
  unfoldable pub bound_packet_socket : ℤ → System → System
  unfolding call
  bound_packet_socket sock s =
      let binding = call (bind_packet sock) s in
      let option = call (setsockopt sock) binding in
      if not (is_zero (result (bind_packet sock) s))
      then call (close sock) binding
      else if not (is_zero (result (setsockopt sock) binding))
      then call (close sock) option
      else record option { client = record option.client { is_packet_socket = true; sock = sock } }

  -- Its result is not used by enter_init.
  unfoldable pub setup_packet_socket : System → System
  unfolding bound_packet_socket
  setup_packet_socket s =
      let sock = result packet_socket s in
      if is_failed sock
      then call packet_socket s
      else bound_packet_socket sock (call packet_socket s)

  -- The second part is whether the result is 0.
  unfoldable pub bound_udp_socket : ℤ → System → System × Bool
  unfolding call
  bound_udp_socket sock s =
      let binding = call (bind_udp sock) s in
      if not (is_zero (result (bind_udp sock) s)) then (call (close sock) binding, false) else (
        record binding { client = record binding.client { is_packet_socket = false; sock = sock } },
        true,
      )

  unfoldable pub setup_udp_socket : System → System × Bool
  unfolding bound_udp_socket
  setup_udp_socket s =
      let sock = result udp_socket s in
      if is_failed sock
      then (call udp_socket s, false)
      else bound_udp_socket sock (call udp_socket s)

  -- The results only choose what is logged.
  unfoldable pub configure_interface : System → System
  unfolding call
  configure_interface s =
      call (add_route s.client.gateway)
        (call (configure s.client.ip_address s.client.subnet_mask) s)

  abbrev pub set_renewal_timer : System → System
  set_renewal_timer s = call (settime renew s.client.renewal_interval 0) s

  abbrev pub set_rebinding_timer : System → System
  set_rebinding_timer s = call (settime rebind s.client.rebinding_time 0) s

  abbrev pub set_init_timer : ℕ → ℕ → System → System
  set_init_timer seconds nanoseconds = call (settime start (pos seconds) nanoseconds)

  abbrev pub cancel_rebinding_timer : System → System
  cancel_rebinding_timer = call (settime rebind (pos 0) 0)

  abbrev pub cancel_response_timer : System → System
  cancel_response_timer = call (settime resp (pos 0) 0)

  -- What send_packet and broadcast_packet do about the result of sendto(): the response timer is
  -- started if all bytes were sent, and the packet is out if that worked.
  unfoldable pub sent : ℕ → ℤ → System → System × Bool
  unfolding call
  sent size res s =
      if is_size res size
      then (call (settime resp (pos 5) 0) s, not (is_failed (result (settime resp (pos 5) 0) s)))
      else (s, false)

  unfoldable pub broadcast_packet : List ℕ → System → System × Bool
  unfolding sent
  broadcast_packet buf s =
      let c = broadcast s.client.sock buf in sent (length buf) (result c s) (call c s)

  unfoldable pub send_packet : List ℕ → System → System × Bool
  unfolding sent
  send_packet buf s =
      let c = send s.client.sock s.client.server buf in sent (length buf) (result c s) (call c s)

  unfoldable pub broadcast_discover : System → System × Bool
  broadcast_discover s = broadcast_packet (discover_packet s.client) s

  unfoldable pub broadcast_request : System → System × Bool
  broadcast_request s = broadcast_packet (request_packet s.client) s

  unfoldable pub send_request : System → System × Bool
  send_request s = send_packet (renew_packet s.client) s
