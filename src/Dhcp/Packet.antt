-- ===== src/Dhcp/Packet.antt =====
-- A received packet, src/ml_dhcp_client.c from unpack_message_type_offer to unpack_packet. A buffer
-- is the list of the bytes that were read, so `size` is its length.
use monolinux_c_library.Inet.{checksum}
use monolinux_c_library.Prelude.{
  ℕ, List, [], ◌∷◌, Option, none, some, Bool, true, false, not, ◌&&◌, length, get_or, take, drop,
  leb, ◌==◌, if◌then◌else◌,
}
use monolinux_c_library.Prelude.Int.{pos, ◌+ℤ◌}
use monolinux_c_library.Dhcp.State.{Client, offer, ack, nak, ntohl, to_int, half}
use monolinux_c_library.Dhcp.Options.{Options, be32_at, unpack_options}

-- memcmp() of equal lengths comes to 0.
abbrev pub bytes_equal : List ℕ → List ℕ → Bool
bytes_equal [] [] = true
bytes_equal (a ∷ as') (b ∷ bs) = a == b && bytes_equal as' bs
bytes_equal _ _ = false

-- The fields that an offer sets, from the values of its options.
unfoldable pub set_offer : Client → List ℕ → ℕ → ℕ → ℕ → ℕ → ℕ → Client
unfolding to_int half ntohl ◌+ℤ◌
set_offer c buf server lease subnet_mask gateway dns = record c {
  ip_address = ntohl (be32_at buf 0);
  server = server;
  subnet_mask = subnet_mask;
  gateway = gateway;
  dns = dns;
  lease_time = to_int lease;
  renewal_interval = half (to_int lease);
  rebinding_time = half (to_int lease) +ℤ pos 10;
  packet_type = offer;
}

-- An offer with an option missing, or with no lease time, is ignored.
unfoldable pub offered :
    Client → List ℕ → Option ℕ → Option ℕ → Option ℕ → Option ℕ → Option ℕ → Client
unfolding set_offer
offered c buf (some server) (some lease) (some subnet_mask) (some gateway) (some dns) =
    if leb 1 lease then set_offer c buf server lease subnet_mask gateway dns else c
offered c _ _ _ _ _ _ = c

unfoldable pub unpack_message_type_offer : Client → Options → List ℕ → Client
unfolding offered
unpack_message_type_offer c o buf =
    offered c buf o.server_ip_address o.lease_time o.subnet_mask o.gateway o.dns

unfoldable pub unpack_message_type_ack : Client → Client
unpack_message_type_ack c = record c { packet_type = ack }

unfoldable pub unpack_message_type_nak : Client → Client
unpack_message_type_nak c = record c { packet_type = nak }

-- IPVERSION is 4 and IPPROTO_UDP is 17.
unfoldable pub is_ip_valid : List ℕ → ℕ → Bool
is_ip_valid buf size =
    leb 20 size
    && checksum buf 20 == 0
    && get_or buf 0 0 == 0x45
    && get_or buf 9 0 == 17
    && get_or buf 16 0 == 255
    && get_or buf 17 0 == 255
    && get_or buf 18 0 == 255
    && get_or buf 19 0 == 255

unfoldable pub is_udp_valid : List ℕ → ℕ → Bool
is_udp_valid buf size =
    leb 28 size
    && get_or buf 0 0 == 0
    && get_or buf 1 0 == 67
    && get_or buf 2 0 == 0
    && get_or buf 3 0 == 68

unfoldable pub is_packet_valid : List ℕ → ℕ → Bool
is_packet_valid buf size = is_ip_valid buf size && is_udp_valid (drop 20 buf) size

-- The magic cookie at MAGIC_COOKIE_DHCP_OFFSET.
abbrev pub has_cookie : List ℕ → Bool
has_cookie buf =
    get_or buf 236 0 == 0x63
    && get_or buf 237 0 == 0x82
    && get_or buf 238 0 == 0x53
    && get_or buf 239 0 == 0x63

-- The switch on the message type.
unfoldable pub unpack_typed : Client → Options → List ℕ → Option ℕ → Client
unfolding unpack_message_type_offer unpack_message_type_ack unpack_message_type_nak
unpack_typed c o buf none = c
unpack_typed c o buf (some message_type) =
    if message_type == 2
    then unpack_message_type_offer c o (drop 16 buf)
    else if message_type == 5
    then unpack_message_type_ack c
    else if message_type == 6
    then unpack_message_type_nak c
    else c

abbrev pub unpack_parsed : Client → List ℕ → Option Options → Client
unpack_parsed c buf none = c
unpack_parsed c buf (some o) = unpack_typed c o buf o.message_type

-- The BOOTP part of a packet, behind the IP and UDP headers. `opened` is whether fmemopen() works.
unfoldable pub unpack_bootp : Bool → Client → List ℕ → Client
unpack_bootp opened c buf =
    if leb (length buf) 240
    then c
    else if not (get_or buf 0 0 == 2)
    then c
    else if not (get_or buf 1 0 == 1)
    then c
    else if not (bytes_equal (take 6 (drop 28 buf)) c.mac_address)
    then c
    else if not (has_cookie buf)
    then c
    else unpack_parsed c buf (unpack_options opened (drop 240 buf))

unfoldable pub unpack_packet : Bool → Client → List ℕ → Client
unfolding unpack_bootp
unpack_packet opened c buf =
    if c.is_packet_socket
    then if is_packet_valid buf (length buf) then unpack_bootp opened c (drop 28 buf) else c
    else unpack_bootp opened c buf
