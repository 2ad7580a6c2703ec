-- ===== src/Dhcp/Start.antt =====
-- Starting and stopping the client, src/ml_dhcp_client.c from setup_timer to ml_dhcp_client_stop.
-- The functions of src/ml_network.c that ask for the interface are calls with a result.
use monolinux_c_library.Prelude.{ℕ, List, [], ◌∷◌, Bool, true, false, not, if◌then◌else◌}
use monolinux_c_library.Prelude.Int.{ℤ, pos, negsuc}
use monolinux_c_library.Dhcp.State.{Slot, renew, rebind, resp, start}
use monolinux_c_library.Dhcp.System.{
  System, Trace, Call, close, packet_socket, bind_packet, setsockopt, timer_create, interface_index,
  interface_mac_address, thread_create, is_zero, is_failed, call, result, setup_packet_socket,
  set_init_timer,
}
use monolinux_c_library.Dhcp.Timers.{same_slot}

-- The system with the descriptors of the four timers in the poll list.
pub record Starting : Type 0 where
  pub system : System
  pub fds : Slot → ℤ

abbrev pub with_system : Starting → System → Starting
with_system t s = record t { system = s }

-- init_pollfd for a timer.
abbrev pub with_fd : Starting → Slot → ℤ → Starting
with_fd t slot fd = record t { fds = λ slot'. if same_slot slot slot' then fd else t.fds slot' }

abbrev pub with_mac : System → List ℕ → System
with_mac s mac = record s { client = record s.client { mac_address = mac } }

module _ (answer : Trace → Call → ℤ) where
  -- What setup_packet_socket returns.
  unfoldable pub packet_socket_result : System → ℤ
  unfolding call
  packet_socket_result s =
      let sock = result answer packet_socket s in
      let opened = call answer packet_socket s in
      let binding = result answer (bind_packet sock) opened in
      if is_failed sock
      then negsuc 0
      else if not (is_zero binding)
      then binding
      else result answer (setsockopt sock) (call answer (bind_packet sock) opened)

  -- The second part is whether the result is 0; else it is -1.
  unfoldable pub setup_timer : Slot → Starting → Starting × Bool
  unfolding call
  setup_timer slot t =
      let fd = result answer (timer_create slot) t.system in
      let created = with_system t (call answer (timer_create slot) t.system) in
      if is_failed fd then (created, false) else (with_fd created slot fd, true)

  unfoldable pub close_all : List ℤ → System → System
  unfolding call
  close_all [] s = s
  close_all (fd ∷ fds) s = close_all fds (call answer (close fd) s)

  -- The error labels close what was opened before, the last one first.
  abbrev pub give_back : Starting → List ℤ → Starting × ℤ
  give_back t fds = (with_system t (close_all fds t.system), negsuc 0)

  abbrev pub after_start : Starting × Bool → Starting × ℤ
  after_start (t, true) = (t, pos 0)
  after_start (t, false) =
      give_back t (t.fds resp ∷ t.fds rebind ∷ t.fds renew ∷ t.system.client.sock ∷ [])

  abbrev pub after_resp : Starting × Bool → Starting × ℤ
  after_resp (t, true) = after_start (setup_timer start t)
  after_resp (t, false) = give_back t (t.fds rebind ∷ t.fds renew ∷ t.system.client.sock ∷ [])

  abbrev pub after_rebind : Starting × Bool → Starting × ℤ
  after_rebind (t, true) = after_resp (setup_timer resp t)
  after_rebind (t, false) = give_back t (t.fds renew ∷ t.system.client.sock ∷ [])

  abbrev pub after_renew : Starting × Bool → Starting × ℤ
  after_renew (t, true) = after_rebind (setup_timer rebind t)
  after_renew (t, false) = give_back t (t.system.client.sock ∷ [])

  abbrev pub after_socket : Starting × ℤ → Starting × ℤ
  after_socket (t, res) = if is_zero res then after_renew (setup_timer renew t) else (t, res)

  -- `mac` is the address that the interface reports.
  unfoldable pub init : List ℕ → Starting → Starting × ℤ
  unfolding call packet_socket_result setup_timer close_all
  init mac t =
      let index = result answer interface_index t.system in
      let s1 = call answer interface_index t.system in
      let address = result answer interface_mac_address s1 in
      let s2 = call answer interface_mac_address s1 in
      let s3 = with_mac s2 mac in
      if not (is_zero index)
      then (with_system t s1, index)
      else if not (is_zero address)
      then (with_system t s2, address)
      else after_socket (with_system t (setup_packet_socket answer s3), packet_socket_result s3)

  unfoldable pub destroy : Starting → Starting
  unfolding close_all
  destroy t = with_system t (
      close_all (t.system.client.sock ∷ t.fds renew ∷ t.fds rebind ∷ t.fds resp ∷ t.fds start ∷ [])
        t.system)

  -- Where the thread cannot be created all is given back.
  abbrev pub after_init : Starting × ℤ → Starting × ℤ
  after_init (t, res) =
      let s1 = set_init_timer answer 0 1 t.system in
      let created = result answer thread_create s1 in
      let t2 = with_system t (call answer thread_create s1) in
      if is_zero res
      then if is_zero created then (t2, created) else (destroy t2, created)
      else (t, res)

  -- ml_dhcp_client_start.
  unfoldable pub start_client : List ℕ → Starting → Starting × ℤ
  unfolding init destroy
  start_client mac t = after_init (init mac t)
