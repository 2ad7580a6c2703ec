-- ===== src/Dhcp/Diagram.antt =====
-- The transition diagram of the client of src/ml_dhcp_client.c, with what is sent on each transition.
use monolinux_c_library.Prelude.{◌≡◌, ◌⊎◌, List, [], ◌∷◌, true}
use monolinux_c_library.Dhcp.State.{
  Client, offer, ack, nak, init, selecting, requesting, bound, renewing,
}
use monolinux_c_library.Dhcp.Pack.{discover_packet, request_packet, renew_packet}
use monolinux_c_library.Dhcp.System.{System, Trace, Call, broadcast, send}

-- The packets that were handed to the kernel, the last one first.
abbrev pub outgoing : Trace → List Call
outgoing [] = []
outgoing ((broadcast sock buf, res) ∷ tr) = broadcast sock buf ∷ outgoing tr
outgoing ((send sock server buf, res) ∷ tr) = send sock server buf ∷ outgoing tr
outgoing ((c, res) ∷ tr) = outgoing tr

-- Nothing is sent, or one packet and no other.
abbrev pub IsSilent : System → System → Type 0
IsSilent s t = outgoing t.trace ≡ outgoing s.trace

abbrev pub Sends : Call → System → System → Type 0
Sends c s t = outgoing t.trace ≡ c ∷ outgoing s.trace

-- The packets of the client.
abbrev pub discover_call : Client → Call
discover_call c = broadcast c.sock (discover_packet c)

abbrev pub request_call : Client → Call
request_call c = broadcast c.sock (request_packet c)

abbrev pub renew_call : Client → Call
renew_call c = send c.sock c.server (renew_packet c)

-- Why the client starts over: a request was not sent in full, or its timer could not be set; the
-- sockets of a bound client could not be set up; the server refused; or a timer expired.
pub data Fails (s t : System) : Type 0 where
  not_requested :
      s.client.state ≡ selecting
      → s.client.packet_type ≡ offer
      → Sends (request_call s.client) s t
      → Fails s t
  not_renewed :
      s.client.state ≡ bound
      → s.client.renewal_timer_expired ≡ true
      → Sends (renew_call s.client) s t
      → Fails s t
  not_bound :
      (s.client.state ≡ requesting) ⊎ (s.client.state ≡ renewing)
      → s.client.packet_type ≡ ack
      → IsSilent s t
      → Fails s t
  refused :
      (s.client.state ≡ requesting) ⊎ (s.client.state ≡ renewing)
      → s.client.packet_type ≡ nak
      → IsSilent s t
      → Fails s t
  no_response :
      (s.client.state ≡ selecting) ⊎ ((s.client.state ≡ requesting) ⊎ (s.client.state ≡ renewing))
      → s.client.response_timer_expired ≡ true
      → IsSilent s t
      → Fails s t
  lease_ends :
      s.client.state ≡ renewing → s.client.rebinding_timer_expired ≡ true → IsSilent s t → Fails s t

-- A transition, with what is sent and the condition on the client under which it happens.
pub data Edge (s t : System) : Type 0 where
  stay : t.client.state ≡ s.client.state → IsSilent s t → Edge s t
  retry :
      s.client.state ≡ init
      → s.client.init_timer_expired ≡ true
      → t.client.state ≡ init
      → Sends (discover_call s.client) s t
      → Edge s t
  discover :
      s.client.state ≡ init
      → s.client.init_timer_expired ≡ true
      → t.client.state ≡ selecting
      → Sends (discover_call s.client) s t
      → Edge s t
  request :
      s.client.state ≡ selecting
      → s.client.packet_type ≡ offer
      → t.client.state ≡ requesting
      → Sends (request_call s.client) s t
      → Edge s t
  bind :
      (s.client.state ≡ requesting) ⊎ (s.client.state ≡ renewing)
      → s.client.packet_type ≡ ack
      → t.client.state ≡ bound
      → IsSilent s t
      → Edge s t
  renew :
      s.client.state ≡ bound
      → s.client.renewal_timer_expired ≡ true
      → t.client.state ≡ renewing
      → Sends (renew_call s.client) s t
      → Edge s t
  give_up : t.client.state ≡ init → Fails s t → Edge s t
