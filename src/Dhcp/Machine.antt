-- ===== src/Dhcp/Machine.antt =====
-- The state machine of src/ml_dhcp_client.c: the handlers of each state, and the loop of client_main.
use monolinux_c_library.Prelude.{ℕ, List, [], ◌∷◌, Bool, true, false, length, ltb, if◌then◌else◌}
use monolinux_c_library.Prelude.Int.{ℤ}
use monolinux_c_library.Dhcp.State.{
  State, PacketType, offer, ack, nak, no_packet, Slot, renew, rebind, resp, start, init, selecting,
  requesting, bound, renewing,
}
use monolinux_c_library.Dhcp.Packet.{unpack_packet}
use monolinux_c_library.Dhcp.System.{
  System, Trace, Call, close, sleep, read_timer, call, result, is_size, setup_packet_socket,
  setup_udp_socket, configure_interface, set_renewal_timer, set_rebinding_timer, set_init_timer,
  cancel_rebinding_timer, cancel_response_timer, broadcast_discover, broadcast_request,
  send_request,
}

abbrev pub is_offer : PacketType → Bool
is_offer offer = true
is_offer _ = false

abbrev pub is_ack : PacketType → Bool
is_ack ack = true
is_ack _ = false

abbrev pub is_nak : PacketType → Bool
is_nak nak = true
is_nak _ = false

-- What poll() reports of the five descriptors. A socket that is readable yields `packet`, empty where
-- read() fails, and `opened` is whether fmemopen() then works.
pub record Events : Type 0 where
  pub sock_error : Bool
  pub sock_readable : Bool
  pub packet : List ℕ
  pub opened : Bool
  pub renew_readable : Bool
  pub rebind_readable : Bool
  pub resp_readable : Bool
  pub init_readable : Bool

abbrev pub change_state : State → System → System
change_state state s = record s { client = record s.client { state = state } }

abbrev pub set_packet_type : PacketType → System → System
set_packet_type t s = record s { client = record s.client { packet_type = t } }

module _ (answer : Trace → Call → ℤ) where
  unfoldable pub enter_init : System → System
  enter_init s =
      let s1 = cancel_response_timer answer s in
      let s2 = cancel_rebinding_timer answer s1 in
      let s3 = set_init_timer answer 10 0 s2 in
      let s4 = call answer (close s3.client.sock) s3 in
      change_state init (setup_packet_socket answer s4)

  abbrev pub or_init : System × Bool → System
  or_init (s, true) = s
  or_init (s, false) = enter_init s

  unfoldable pub enter_bound : System → System
  unfolding enter_init
  enter_bound s =
      let s1 = cancel_response_timer answer s in
      let s2 = set_renewal_timer answer s1 in
      let s3 = set_rebinding_timer answer s2 in
      let s4 = configure_interface answer s3 in
      let s5 = call answer (close s4.client.sock) s4 in
      or_init (setup_udp_socket answer (change_state bound s5))

  -- Where a packet went out the client enters a state, and else it gives up.
  abbrev pub enter_or : State → (System → System) → System × Bool → System
  enter_or state otherwise (s, true) = change_state state s
  enter_or state otherwise (s, false) = otherwise s

  unfoldable pub process_events_init : System → System
  process_events_init s =
      if s.client.init_timer_expired
      then enter_or selecting (set_init_timer answer 10 0) (broadcast_discover answer s)
      else s

  unfoldable pub process_events_selecting : System → System
  process_events_selecting s =
      if is_offer s.client.packet_type
      then enter_or requesting enter_init (broadcast_request answer s)
      else if s.client.response_timer_expired
      then enter_init s
      else s

  unfoldable pub process_events_requesting : System → System
  process_events_requesting s =
      if is_ack s.client.packet_type
      then enter_bound s
      else if is_nak s.client.packet_type
      then enter_init s
      else if s.client.response_timer_expired
      then enter_init s
      else s

  unfoldable pub process_events_bound : System → System
  process_events_bound s =
      if s.client.renewal_timer_expired
      then enter_or renewing enter_init (send_request answer s)
      else s

  unfoldable pub process_events_renewing : System → System
  process_events_renewing s =
      if is_ack s.client.packet_type
      then enter_bound s
      else if is_nak s.client.packet_type
      then enter_init s
      else if s.client.response_timer_expired
      then enter_init s
      else if s.client.rebinding_timer_expired
      then enter_init s
      else s

  abbrev pub dispatch : State → System → System
  dispatch init s = process_events_init s
  dispatch selecting s = process_events_selecting s
  dispatch requesting s = process_events_requesting s
  dispatch bound s = process_events_bound s
  dispatch renewing s = process_events_renewing s

  unfoldable pub process_events : System → System
  process_events s = dispatch s.client.state s

  -- is_timeout: a readable timer counts if a whole counter is read.
  unfoldable pub is_timeout : Slot → Bool → System → System × Bool
  unfolding call
  is_timeout slot readable s =
      if readable
      then (call answer (read_timer slot) s, is_size (result answer (read_timer slot) s) 8)
      else (s, false)

  -- The part of update_events about the socket.
  unfoldable pub update_socket : Events → System → System
  unfolding call
  update_socket e s =
      if e.sock_error
      then call answer sleep (set_packet_type no_packet s)
      else if e.sock_readable
      then if ltb 0 (length e.packet)
        then record s {
          client = unpack_packet e.opened (record s.client { packet_type = no_packet }) e.packet;
        }
        else set_packet_type no_packet s
      else set_packet_type no_packet s

  unfoldable pub update_events : Events → System → System
  unfolding is_timeout update_socket
  update_events e s =
      let s0 = update_socket e s in
      let (s1, renewal) = is_timeout renew e.renew_readable s0 in
      let (s2, rebinding) = is_timeout rebind e.rebind_readable s1 in
      let (s3, response) = is_timeout resp e.resp_readable s2 in
      let (s4, initial) = is_timeout start e.init_readable s3 in
      record s4 {
        client = record s4.client {
          renewal_timer_expired = renewal;
          rebinding_timer_expired = rebinding;
          response_timer_expired = response;
          init_timer_expired = initial;
        };
      }

  -- The loop of client_main over the results of poll(), up to the first one that is not positive.
  unfoldable pub client_main : List Events → System → System
  client_main [] s = s
  client_main (e ∷ es) s = client_main es (process_events (update_events e s))
