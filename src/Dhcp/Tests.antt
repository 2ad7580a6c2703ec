-- ===== src/Dhcp/Tests.antt =====
-- A client at 02:00:00:00:00:01 with a kernel on which every call works.
use monolinux_c_library.Prelude.{
  ℕ, ◌+◌, ◌/◌, ◌≡◌, ◌≤◌, ◌⊎◌, inr, refl, if◌then◌else◌, List, [], ◌∷◌, ◌++◌, none, some, true,
  false, length, replicate, arith,
}
use monolinux_c_library.Prelude.Int.{ℤ, pos, negsuc}
use monolinux_c_library.Dhcp.State.{Client, State, init, requesting, bound, no_packet, ack, renew}
use monolinux_c_library.Dhcp.Options.{
  Options, no_options, unpack_options, unpack_all_options, unpack_option,
}
use monolinux_c_library.Dhcp.Encoding.{
  Encoded, encode, are_sized, described, unpack_all_options-encode,
}
use monolinux_c_library.Dhcp.Packet.{is_ip_valid, unpack_typed, unpack_packet}
use monolinux_c_library.Dhcp.Accept.{IsUnpacked, unpack_packet-cases}
use monolinux_c_library.Dhcp.Pack.{pack_ip_header}
use monolinux_c_library.Dhcp.Header.{pack_ip_header-is_ip_valid}
use monolinux_c_library.Dhcp.System.{
  System, Trace, Call, packet_socket, setup_udp_socket, udp_socket, broadcast, send, read_timer,
  timer_create, thread_create, setup_packet_socket,
}
use monolinux_c_library.Dhcp.Machine.{process_events, enter_bound}
use monolinux_c_library.Dhcp.Timers.{SettimeWorks}
use monolinux_c_library.Dhcp.Liveness.{IsWaiting, process_events-IsWaiting}
use monolinux_c_library.Dhcp.Start.{Starting, start_client}
use monolinux_c_library.Dhcp.Release.{AllOrNone, start_client-AllOrNone}
use monolinux_c_library.Dhcp.Sockets.{closes, enter_bound-closes_twice}

abbrev works : Trace → Call → ℤ
works tr packet_socket = pos 9
works tr udp_socket = pos 9
works tr (broadcast sock buf) = pos (length buf)
works tr (send sock server buf) = pos (length buf)
works tr (read_timer slot) = pos 8
works tr _ = pos 0

abbrev no_udp : Trace → Call → ℤ
no_udp tr packet_socket = pos 9
no_udp tr udp_socket = negsuc 0
no_udp tr _ = pos 0

abbrev mac : List ℕ
mac = 2 ∷ 0 ∷ 0 ∷ 0 ∷ 0 ∷ 1 ∷ []

-- A client in a state with a lease time.
abbrev client : State → ℕ → Client
client state lease = record {
  state = state;
  packet_type = ack;
  ip_address = 0x0a00a8c0;
  subnet_mask = 0x00ffffff;
  gateway = 0x0100a8c0;
  dns = 0x0100a8c0;
  lease_time = pos lease;
  renewal_interval = pos (lease / 2);
  rebinding_time = pos (lease / 2 + 10);
  renewal_timer_expired = false;
  rebinding_timer_expired = false;
  response_timer_expired = true;
  init_timer_expired = true;
  is_packet_socket = false;
  server = 0x0100a8c0;
  mac_address = mac;
  sock = pos 4;
}

abbrev system : State → ℕ → System
system state lease = record { client = client state lease; trace = [] }

-- The message type, and a subnet mask.
abbrev two_options : List Encoded
two_options = (53, 5 ∷ []) ∷ (1, 255 ∷ 255 ∷ 255 ∷ 0 ∷ []) ∷ []

unpack_all_options-encode_example :
    unpack_all_options (encode two_options ++ (255 ∷ 0 ∷ 0 ∷ []))
    ≡ (if are_sized two_options then some (described no_options two_options) else none)
unpack_all_options-encode_example = unpack_all_options-encode two_options (0 ∷ 0 ∷ []) (omega arith)

-- An acknowledgement as the UDP socket delivers it.
abbrev ack_packet : List ℕ
ack_packet =
    2
    ∷ 1
    ∷ (replicate 26 0
        ++ (mac ++ (replicate 202 0 ++ (0x63 ∷ 0x82 ∷ 0x53 ∷ 0x63 ∷ 53 ∷ 1 ∷ 5 ∷ 255 ∷ []))))

ack_is_accepted :
    (unpack_packet true
      (record (client requesting 60) { packet_type = no_packet })
      ack_packet).packet_type
    ≡ ack
unfolding unpack_packet unpack_typed unpack_options unpack_all_options unpack_option
ack_is_accepted = refl

unpack_packet-cases_example :
    (unpack_packet true (client requesting 60) ack_packet ≡ client requesting 60)
    ⊎ ((o : Options) × IsUnpacked
          (client requesting 60)
          ack_packet
          o
          (unpack_packet true (client requesting 60) ack_packet))
unpack_packet-cases_example = unpack_packet-cases true (client requesting 60) ack_packet

abbrev offer_options : Options
offer_options = record {
  message_type = some 2;
  subnet_mask = some 0x00ffffff;
  gateway = some 0x0100a8c0;
  dns = some 0x0100a8c0;
  lease_time = some 3600;
  renewal_time = none;
  rebinding_time = none;
  server_ip_address = some 0x0100a8c0;
}

pack_ip_header-is_ip_valid_example :
    is_ip_valid (pack_ip_header (replicate 20 0 ++ (1 ∷ 2 ∷ 3 ∷ [])) 0 23) 23 ≡ true
pack_ip_header-is_ip_valid_example = pack_ip_header-is_ip_valid 23 23 (1 ∷ 2 ∷ 3 ∷ []) (omega arith)

works-SettimeWorks : SettimeWorks works
works-SettimeWorks tr slot sec nsec = refl

-- The acknowledgement of a request for a lease of a minute.
process_events-IsWaiting_example : IsWaiting (process_events works (system requesting 60))
process_events-IsWaiting_example =
    process_events-IsWaiting works works-SettimeWorks (system requesting 60) 29 refl (inr refl)

bound_at_last : (enter_bound works (system requesting 1)).client.state ≡ bound
unfolding enter_bound setup_udp_socket
bound_at_last = refl

enter_bound-closes_twice_example :
    2 ≤ closes (pos 4) (enter_bound no_udp (system requesting 60)).trace
unfolding closes
enter_bound-closes_twice_example =
    enter_bound-closes_twice no_udp 4 (system requesting 60) refl (λ tr. refl)

-- Where the thread cannot be created.
abbrev no_thread : Trace → Call → ℤ
no_thread tr packet_socket = pos 4
no_thread tr (timer_create renew) = pos 5
no_thread tr (timer_create _) = pos 6
no_thread tr thread_create = pos 11
no_thread tr _ = pos 0

abbrev starting : Starting
starting = record { system = system init 60; fds = λ slot. negsuc 0 }

timers_closed : closes (pos 6) (start_client no_thread mac starting).0.system.trace ≡ 3
unfolding start_client setup_packet_socket closes
timers_closed = refl

start_client-AllOrNone_example :
    AllOrNone no_thread (pos 6) starting.system (start_client no_thread mac starting)
start_client-AllOrNone_example = start_client-AllOrNone no_thread (pos 6) mac starting
