-- ===== src/Dhcp/Header.antt =====
-- The packed headers and options against the client's own checks and parser.
use monolinux_c_library.Inet.{checksum, checksum_end}
use monolinux_c_library.Inet.Verify.{checksum-field, checksum_lem}
use monolinux_c_library.Inet.Sum.{checksum_acc-append}
use monolinux_c_library.Prelude.{
  ℕ, ◌/◌, ◌^◌, ◌≡◌, ◌≤◌, ◌<◌, refl, ap, ap₂, ◌∙◌, List, [], ◌∷◌, ◌++◌, some, true, drop, replicate,
  arith,
}
use monolinux_c_library.Prelude.Int.{ℤ, pos, negsuc}
use monolinux_c_library.Prelude.Words.{u8, shr, be32}
use monolinux_c_library.Dhcp.State.{Client, ntohl, from_int}
use monolinux_c_library.Dhcp.Options.{Options, no_options, unpack_all_options, unpack_option}
use monolinux_c_library.Dhcp.Packet.{is_ip_valid}
use monolinux_c_library.Dhcp.Pack.{pack_ip_header, renew_packet, request_packet}

-- The bytes of an IP header before and behind its checksum.
abbrev front : ℕ → List ℕ
front size = 0x45 ∷ 0 ∷ u8 (shr size 8) ∷ u8 size ∷ 0 ∷ 0x11 ∷ 0 ∷ 0 ∷ 255 ∷ 17 ∷ []

abbrev back : List ℕ
back = 0 ∷ 0 ∷ 0 ∷ 0 ∷ 255 ∷ 255 ∷ 255 ∷ 255 ∷ []

-- The header with its checksum field set, and what follows it.
abbrev header : ℕ → List ℕ → ℕ → ℕ → List ℕ
header size rest hi lo = front size ++ (hi ∷ lo ∷ (back ++ rest))

checksum-header :
    (size : ℕ) (rest : List ℕ) (hi lo : ℕ)
    → checksum (header size rest hi lo) 20 ≡ checksum (front size ++ (hi ∷ lo ∷ back)) 20
unfolding checksum
checksum-header size rest hi lo =
    ap checksum_end (checksum_acc-append 10 0 (front size ++ (hi ∷ lo ∷ back)) rest refl)

pack_ip_header_bytes :
    (size : ℕ) (rest : List ℕ)
    → let c = checksum (header size rest 0 0) 20 in
      pack_ip_header (replicate 20 0 ++ rest) 0 size ≡ header size rest (u8 (shr c 8)) (u8 c)
unfolding pack_ip_header
pack_ip_header_bytes size rest = refl

header_checksum-lt : (size : ℕ) → checksum (front size ++ (0 ∷ 0 ∷ back)) 20 < 2 ^ 16
header_checksum-lt size =
    (checksum_lem (front size ++ (0 ∷ 0 ∷ back)) (omega arith) (omega arith)).0

header_valid :
    (size : ℕ) (rest : List ℕ)
    → let c = checksum (front size ++ (0 ∷ 0 ∷ back)) 20 in
      checksum (header size rest (u8 (shr c 8)) (u8 c)) 20 ≡ 0
header_valid size rest =
    let c = checksum (front size ++ (0 ∷ 0 ∷ back)) 20 in
    let hi : u8 (shr c 8) ≡ c / 2 ^ 8 = omega (arith, header_checksum-lt size) in
    checksum-header size rest (u8 (shr c 8)) (u8 c)
    ∙ ap (λ h. checksum (front size ++ (h ∷ u8 c ∷ back)) 20) hi
    ∙ checksum-field 5 (front size) back refl (omega arith) (omega arith) (omega arith)

is_ip_valid-header :
    (size : ℕ) (rest : List ℕ) (hi lo n : ℕ)
    → 20 ≤ n
    → checksum (header size rest hi lo) 20 ≡ 0
    → is_ip_valid (header size rest hi lo) n ≡ true
unfolding is_ip_valid
is_ip_valid-header size rest hi lo n h e = ground arith

-- The IP header that the client packs into a zeroed buffer passes the client's own check of
-- received headers, whatever the size field and whatever follows: its checksum is right.
pub pack_ip_header-is_ip_valid :
    (size n : ℕ) (rest : List ℕ)
    → 20 ≤ n
    → is_ip_valid (pack_ip_header (replicate 20 0 ++ rest) 0 size) n ≡ true
pack_ip_header-is_ip_valid size n rest h =
    ap (λ b. is_ip_valid b n)
      (pack_ip_header_bytes size rest
        ∙ ap (λ c. header size rest (u8 (shr c 8)) (u8 c)) (checksum-header size rest 0 0))
    ∙ is_ip_valid-header size rest _ _ n h (header_valid size rest)

ntohl-ntohl : (x : ℕ) → x < 2 ^ 32 → ntohl (ntohl x) ≡ x
unfolding ntohl
ntohl-ntohl x h = omega arith

-- The value that four packed bytes stand for.
abbrev repacked : ℕ → ℕ
repacked x = be32 (u8 (shr x 24)) (u8 (shr x 16)) (u8 (shr x 8)) (u8 x)

repacked_lem : (x : ℕ) → x < 2 ^ 32 → repacked x ≡ x
repacked_lem x h = omega arith

ntohl-lt : (x : ℕ) → ntohl x < 2 ^ 32
unfolding ntohl
ntohl-lt x = omega arith

abbrev pub requested : ℕ → ℕ → Options
requested server lease = record no_options {
  message_type = some 3;
  server_ip_address = some server;
  lease_time = some lease;
}

module _ (m0 m1 m2 m3 m4 m5 : ℕ) (c : Client) where
  abbrev with_mac : Client
  with_mac = record c { mac_address = m0 ∷ m1 ∷ m2 ∷ m3 ∷ m4 ∷ m5 ∷ [] }

  request_parsed :
      unpack_all_options (drop 268 (request_packet with_mac))
      ≡ some (requested (ntohl (repacked (ntohl c.server))) (repacked (from_int c.lease_time)))
  unfolding request_packet unpack_all_options unpack_option
  request_parsed = refl

  renew_parsed :
      unpack_all_options (drop 240 (renew_packet with_mac))
      ≡ some (requested (ntohl (repacked (ntohl c.server))) (repacked (from_int c.lease_time)))
  unfolding renew_packet unpack_all_options unpack_option
  renew_parsed = refl

from_int-lt : (x : ℤ) → from_int x < 2 ^ 32
unfolding from_int
from_int-lt (pos n) = omega arith
from_int-lt (negsuc n) = omega arith

same_request :
    (server : ℕ) (lease : ℤ)
    → server < 2 ^ 32
    → requested (ntohl (repacked (ntohl server))) (repacked (from_int lease))
      ≡ requested server (from_int lease)
same_request server lease h =
    ap₂ requested (ap ntohl (repacked_lem (ntohl server) (ntohl-lt server)) ∙ ntohl-ntohl server h)
      (repacked_lem (from_int lease) (from_int-lt lease))

-- The options of the broadcast request and of the renewal that the client packs read back, by its
-- own parser, as a request to the server of the client's record for the client's lease time.
pub request_packet-unpack :
    (m0 m1 m2 m3 m4 m5 : ℕ) (c : Client)
    → c.server < 2 ^ 32
    → let c' = record c { mac_address = m0 ∷ m1 ∷ m2 ∷ m3 ∷ m4 ∷ m5 ∷ [] } in
      let o = requested c.server (from_int c.lease_time) in
      (unpack_all_options (drop 268 (request_packet c')) ≡ some o)
      × (unpack_all_options (drop 240 (renew_packet c')) ≡ some o)
request_packet-unpack m0 m1 m2 m3 m4 m5 c h = (
  request_parsed m0 m1 m2 m3 m4 m5 c ∙ ap some (same_request c.server c.lease_time h),
  renew_parsed m0 m1 m2 m3 m4 m5 c ∙ ap some (same_request c.server c.lease_time h),
)
