-- ===== src/Dhcp/Edges.antt =====
-- The handlers of src/ml_dhcp_client.c follow the transition diagram.
use monolinux_c_library.Prelude.{ℕ, ◌≡◌, refl, List, arith}
use monolinux_c_library.Prelude.Int.{ℤ}
use monolinux_c_library.Dhcp.State.{State, init}
use monolinux_c_library.Dhcp.System.{
  System, Trace, Call, setup_udp_socket, broadcast_packet, send_packet,
}
use monolinux_c_library.Dhcp.Machine.{enter_init}

module _ (answer : Trace → Call → ℤ) where
  pub broadcast_packet-client :
      (buf : List ℕ) (s : System) → (broadcast_packet answer buf s).0.client ≡ s.client
  unfolding broadcast_packet
  broadcast_packet-client buf s = ground arith

  pub send_packet-client :
      (buf : List ℕ) (s : System) → (send_packet answer buf s).0.client ≡ s.client
  unfolding send_packet
  send_packet-client buf s = ground arith

  pub setup_udp_socket-state :
      (s : System) → (setup_udp_socket answer s).0.client.state ≡ s.client.state
  unfolding setup_udp_socket
  setup_udp_socket-state s = ground arith

  pub enter_init-state : (s : System) → (enter_init answer s).client.state ≡ init
  unfolding enter_init
  enter_init-state s = refl
