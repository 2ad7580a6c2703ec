-- ===== src/Dhcp/Accept.antt =====
-- What a received packet can change, and which packets can.
use monolinux_c_library.Prelude.{
  ℕ, ◌+◌, ◌/◌, ◌^◌, ◌≡◌, ◌≤◌, ◌<◌, ◌⊎◌, inl, inr, refl, ap, List, some, Bool, true, false, not,
  length, get_or, take, drop, arith, if◌then◌else◌, ltb, leb, ◌==◌, ◌&&◌, Bool-cases, Option-cases,
  ◌∙◌,
}
use monolinux_c_library.Prelude.Int.{pos, ◌+ℤ◌}
use monolinux_c_library.Dhcp.State.{Client, offer, ntohl, to_int, half}
use monolinux_c_library.Dhcp.Options.{Options, be32_at, unpack_options, unpack_all_options}
use monolinux_c_library.Dhcp.Packet.{
  bytes_equal, set_offer, is_packet_valid, has_cookie, unpack_typed, unpack_parsed, unpack_bootp,
  unpack_packet,
}

-- The BOOTP part of a packet, as the socket delivers it.
abbrev pub bootp_of : Client → List ℕ → List ℕ
bootp_of c buf = if c.is_packet_socket then drop 28 buf else buf

-- The packet is a DHCP answer over Ethernet to this client.
pub record IsForMe (c : Client) (buf : List ℕ) : Type 0 where
  pub headers : c.is_packet_socket ≡ true → is_packet_valid buf (length buf) ≡ true
  pub long : 240 < length (bootp_of c buf)
  pub response : get_or (bootp_of c buf) 0 0 ≡ 2
  pub ethernet : get_or (bootp_of c buf) 1 0 ≡ 1
  pub mac : bytes_equal (take 6 (drop 28 (bootp_of c buf))) c.mac_address ≡ true
  pub cookie : has_cookie (bootp_of c buf) ≡ true

-- What a packet for this client with given options does.
pub record IsUnpacked (c : Client) (buf : List ℕ) (o : Options) (c' : Client) : Type 0 where
  pub for_me : IsForMe c buf
  pub parsed : unpack_all_options (drop 240 (bootp_of c buf)) ≡ some o
  pub result : c' ≡ unpack_typed c o (bootp_of c buf) o.message_type

-- The tests of unpack_packet on the BOOTP part.
abbrev passes : Client → List ℕ → Bool
passes c buf =
    not (leb (length buf) 240)
    && get_or buf 0 0 == 2
    && get_or buf 1 0 == 1
    && bytes_equal (take 6 (drop 28 buf)) c.mac_address
    && has_cookie buf

-- The chain of early returns, by its five tests.
abbrev early_returns : (short response ethernet mac cookie : Bool) → Client → Client → Client
early_returns short response ethernet mac cookie same after =
    if short
    then same
    else if not response
    then same
    else if not ethernet
    then same
    else if not mac
    then same
    else if not cookie
    then same
    else after

all_pass :
    (s r e m k : Bool) (same after : Client)
    → (not s && r && e && m && k) ≡ true
    → early_returns s r e m k same after ≡ after
all_pass true r e m k same after h = cc
all_pass false false e m k same after h = cc
all_pass false true false m k same after h = cc
all_pass false true true false k same after h = cc
all_pass false true true true false same after h = cc
all_pass false true true true true same after h = refl

one_fails :
    (s r e m k : Bool) (same after : Client)
    → (not s && r && e && m && k) ≡ false
    → early_returns s r e m k same after ≡ same
one_fails true r e m k same after h = refl
one_fails false false e m k same after h = refl
one_fails false true false m k same after h = refl
one_fails false true true false k same after h = refl
one_fails false true true true false same after h = refl
one_fails false true true true true same after h = cc

unpack_bootp-passes :
    (opened : Bool) (c : Client) (buf : List ℕ)
    → passes c buf ≡ true
    → unpack_bootp opened c buf ≡ unpack_parsed c buf (unpack_options opened (drop 240 buf))
unfolding unpack_bootp
unpack_bootp-passes opened c buf h =
    all_pass (leb (length buf) 240) (get_or buf 0 0 == 2) (get_or buf 1 0 == 1)
      (bytes_equal (take 6 (drop 28 buf)) c.mac_address) (has_cookie buf) c _ h

unpack_bootp-fails :
    (opened : Bool) (c : Client) (buf : List ℕ)
    → passes c buf ≡ false
    → unpack_bootp opened c buf ≡ c
unfolding unpack_bootp
unpack_bootp-fails opened c buf h =
    one_fails (leb (length buf) 240) (get_or buf 0 0 == 2) (get_or buf 1 0 == 1)
      (bytes_equal (take 6 (drop 28 buf)) c.mac_address) (has_cookie buf) c _ h

unpack_packet-bootp :
    (opened : Bool) (c : Client) (buf : List ℕ)
    → (unpack_packet opened c buf ≡ c)
      ⊎ ((c.is_packet_socket ≡ true → is_packet_valid buf (length buf) ≡ true)
          × (unpack_packet opened c buf ≡ unpack_bootp opened c (bootp_of c buf)))
unfolding unpack_packet
unpack_packet-bootp opened c buf = elim (Bool-cases c.is_packet_socket) [
  | inr p ↦ inr (λ q. cc, rw p)
  | inl p ↦ elim (Bool-cases (is_packet_valid buf (length buf))) [
    | inl q ↦ inr (λ r. q, rw p (rw q))
    | inr q ↦ inl (rw p (rw q))
  ]
]

unpack_options-some :
    (opened : Bool) (buf : List ℕ) (o : Options)
    → unpack_options opened buf ≡ some o
    → unpack_all_options buf ≡ some o
unfolding unpack_options
unpack_options-some true buf o e = e
unpack_options-some false buf o e = cc

IsForMe-passes :
    (c : Client) (buf : List ℕ)
    → (c.is_packet_socket ≡ true → is_packet_valid buf (length buf) ≡ true)
    → passes c (bootp_of c buf) ≡ true
    → IsForMe c buf
IsForMe-passes c buf v p = record {
  headers = v;
  long = ground arith;
  response = ground arith;
  ethernet = ground arith;
  mac = ground arith;
  cookie = ground arith;
}

-- A packet changes nothing unless it is a BOOTP response over Ethernet to the MAC address of this
-- client, more than 240 bytes long, with the DHCP cookie, behind IP and UDP headers that pass the
-- checks where the socket delivers these, and with options that parse. What it then does is
-- decided by its message type.
pub unpack_packet-cases :
    (opened : Bool) (c : Client) (buf : List ℕ)
    → (unpack_packet opened c buf ≡ c)
      ⊎ ((o : Options) × IsUnpacked c buf o (unpack_packet opened c buf))
unpack_packet-cases opened c buf = elim (unpack_packet-bootp opened c buf) [
  | inl same ↦ inl same
  | inr (v, e) ↦
      let b = bootp_of c buf in
      elim (Bool-cases (passes c b)) [
        | inr p ↦ inl (e ∙ unpack_bootp-fails opened c b p)
        | inl p ↦ elim (Option-cases (unpack_options opened (drop 240 b))) [
          | inl q ↦ inl (e ∙ unpack_bootp-passes opened c b p ∙ rw q)
          | inr (o, q) ↦ inr (
            o,
            record {
              for_me = IsForMe-passes c buf v p;
              parsed = unpack_options-some opened (drop 240 b) o q;
              result = e ∙ unpack_bootp-passes opened c b p ∙ rw q;
            },
          )
        ]
      ]
]

to_int-pos : (x : ℕ) → ltb x (2 ^ 31) ≡ true → to_int x ≡ pos x
unfolding to_int
to_int-pos x e = rw e

pos_plus_ten : (n : ℕ) → pos n +ℤ pos 10 ≡ pos (n + 10)
unfolding ◌+ℤ◌
pos_plus_ten n = ground arith

set_offer_lem :
    (c : Client) (buf : List ℕ) (server lease subnet_mask gateway dns : ℕ)
    → ltb lease (2 ^ 31) ≡ true
    → set_offer c buf server lease subnet_mask gateway dns ≡ record c {
      ip_address = ntohl (be32_at buf 0);
      server = server;
      subnet_mask = subnet_mask;
      gateway = gateway;
      dns = dns;
      lease_time = pos lease;
      renewal_interval = pos (lease / 2);
      rebinding_time = pos (lease / 2 + 10);
      packet_type = offer;
    }
unfolding set_offer
set_offer_lem c buf server lease subnet_mask gateway dns e =
    let late = pos_plus_ten (lease / 2) in
    let i = to_int-pos lease e in
    ap
      (λ x. record c {
        ip_address = ntohl (be32_at buf 0);
        server = server;
        subnet_mask = subnet_mask;
        gateway = gateway;
        dns = dns;
        lease_time = x;
        renewal_interval = half x;
        rebinding_time = half x +ℤ pos 10;
        packet_type = offer;
      })
      i
    ∙ ap
        (λ x. record c {
          ip_address = ntohl (be32_at buf 0);
          server = server;
          subnet_mask = subnet_mask;
          gateway = gateway;
          dns = dns;
          lease_time = pos lease;
          renewal_interval = pos (lease / 2);
          rebinding_time = x;
          packet_type = offer;
        })
        late

-- A client that takes in a complete offer with a lease of at least a second, whatever its state, has
-- the offered address and server, and the times derived from the lease; its state, its socket and
-- its timer flags are those from before.
pub unpack_offer_lem :
    (c : Client) (buf : List ℕ) (o : Options) (server lease subnet_mask gateway dns : ℕ)
    → o.message_type ≡ some 2
    → o.server_ip_address ≡ some server
    → o.lease_time ≡ some lease
    → o.subnet_mask ≡ some subnet_mask
    → o.gateway ≡ some gateway
    → o.dns ≡ some dns
    → 1 ≤ lease
    → lease < 2 ^ 31
    → let c' = unpack_typed c o buf o.message_type in
      (c' ≡ record c {
        ip_address = ntohl (be32_at (drop 16 buf) 0);
        server = server;
        subnet_mask = subnet_mask;
        gateway = gateway;
        dns = dns;
        lease_time = pos lease;
        renewal_interval = pos (lease / 2);
        rebinding_time = pos (lease / 2 + 10);
        packet_type = offer;
      })
unfolding unpack_typed
unpack_offer_lem c buf o server lease subnet_mask gateway dns m s l n g d p q =
    let fits : ltb lease (2 ^ 31) ≡ true = ground arith in
    let some_time : leb 1 lease ≡ true = ground arith in
    rw (m, unpack_typed)
      (rw (s, unpack_typed)
        (rw (l, unpack_typed)
          (rw (n, unpack_typed)
            (rw (g, unpack_typed)
              (rw (d, unpack_typed)
                (rw some_time
                  (set_offer_lem c (drop 16 buf) server lease subnet_mask gateway dns fits)))))))
