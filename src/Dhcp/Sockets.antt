-- ===== src/Dhcp/Sockets.antt =====
-- Two flaws of entering BOUND in src/ml_dhcp_client.c: a short lease is never renewed, and a socket
-- may be closed twice.
use monolinux_c_library.Prelude.{
  ℕ, suc, ◌+◌, ◌≤◌, ◌≡◌, ◌∙◌, [], ◌∷◌, Bool, true, false, arith, if◌then◌else◌,
}
use monolinux_c_library.Prelude.Int.{ℤ, pos, negsuc}
pub use monolinux_c_library.Prelude.Int.{same_fd}
use monolinux_c_library.Dhcp.State.{renew, bound}
use monolinux_c_library.Dhcp.System.{
  System, Trace, Call, close, udp_socket, call, setup_packet_socket, setup_udp_socket,
  configure_interface, cancel_response_timer, cancel_rebinding_timer, set_renewal_timer,
  set_rebinding_timer, set_init_timer,
}
use monolinux_c_library.Dhcp.Machine.{enter_init, enter_bound, or_init, change_state}
use monolinux_c_library.Dhcp.Edges.{enter_init-state}
use monolinux_c_library.Dhcp.Timers.{armed, setup_udp_socket-armed}

abbrev pub closing : Call → ℤ → ℕ
closing (close fd') fd = if same_fd fd' fd then 1 else 0
closing _ fd = 0

-- How often a descriptor was closed.
unfoldable pub closes : ℤ → Trace → ℕ
closes fd [] = 0
closes fd ((c, r) ∷ tr) = closing c fd + closes fd tr

module _ (answer : Trace → Call → ℤ) where
  unarmed_or_init :
      (r : System × Bool)
      → armed renew r.0.trace ≡ false
      → (or_init answer r).client.state ≡ bound
      → armed renew (or_init answer r).trace ≡ false
  unarmed_or_init (s, true) a e = a
  unarmed_or_init (s, false) a e = absurd (ground (arith, enter_init-state answer s))

  set_renewal-unarmed :
      (s : System)
      → s.client.renewal_interval ≡ pos 0
      → armed renew (set_renewal_timer answer s).trace ≡ false
  unfolding call armed
  set_renewal-unarmed s e = ground arith

  -- With a renewal interval of 0, which a lease of one second yields, the client that has become
  -- bound has no renewal timer running: it stays bound past its lease and never renews it.
  pub enter_bound-unarmed :
      (s : System)
      → s.client.renewal_interval ≡ pos 0
      → (enter_bound answer s).client.state ≡ bound
      → armed renew (enter_bound answer s).trace ≡ false
  unfolding enter_bound
  enter_bound-unarmed s e b =
      let s1 = cancel_response_timer answer s in
      let s2 = set_renewal_timer answer s1 in
      let s3 = set_rebinding_timer answer s2 in
      let s4 = configure_interface answer s3 in
      let s5 : System = change_state bound (call answer (close s4.client.sock) s4) in
      unarmed_or_init (setup_udp_socket answer s5)
        (setup_udp_socket-armed answer renew s5
          ∙ (unfold call armed configure_interface in
              set_renewal-unarmed (cancel_response_timer answer s) e))
        b

  closes-setup_packet_socket :
      (fd : ℤ) (s : System) → closes fd s.trace ≤ closes fd (setup_packet_socket answer s).trace
  unfolding setup_packet_socket closes
  closes-setup_packet_socket fd s = ground arith

  closes-close :
      (fd : ℕ) (s : System)
      → s.client.sock ≡ pos fd
      → closes (pos fd) (call answer (close s.client.sock) s).trace ≡ suc (closes (pos fd) s.trace)
  unfolding call closes
  closes-close fd s e = ground arith

  closes-enter_init :
      (fd : ℕ) (s : System)
      → s.client.sock ≡ pos fd
      → suc (closes (pos fd) s.trace) ≤ closes (pos fd) (enter_init answer s).trace
  unfolding enter_init call closes
  closes-enter_init fd s e =
      let s1 = cancel_response_timer answer s in
      let s2 = cancel_rebinding_timer answer s1 in
      let s3 : System = set_init_timer answer 10 0 s2 in
      let s4 : System = call answer (close s3.client.sock) s3 in
      ground (arith, closes-setup_packet_socket (pos fd) s4, closes-close fd s3 e)

  setup_udp_socket-fails :
      (s : System)
      → answer s.trace udp_socket ≡ negsuc 0
      → setup_udp_socket answer s ≡ (call answer udp_socket s, false)
  unfolding setup_udp_socket
  setup_udp_socket-fails s e = ground arith

  -- Where no UDP socket can be opened, entering BOUND closes the packet socket, and the return to
  -- INIT that follows closes the same descriptor once more.
  pub enter_bound-closes_twice :
      (fd : ℕ) (s : System)
      → s.client.sock ≡ pos fd
      → ((tr : Trace) → answer tr udp_socket ≡ negsuc 0)
      → suc (suc (closes (pos fd) s.trace)) ≤ closes (pos fd) (enter_bound answer s).trace
  unfolding enter_bound call closes configure_interface
  enter_bound-closes_twice fd s e no_socket =
      let s1 = cancel_response_timer answer s in
      let s2 = set_renewal_timer answer s1 in
      let s3 = set_rebinding_timer answer s2 in
      let s4 : System = configure_interface answer s3 in
      let s5 : System = change_state bound (call answer (close s4.client.sock) s4) in
      rw (setup_udp_socket-fails s5 (no_socket s5.trace))
        (ground (arith, closes-enter_init fd (call answer udp_socket s5) e, closes-close fd s4 e))
