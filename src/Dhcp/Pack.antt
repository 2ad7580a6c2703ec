-- ===== src/Dhcp/Pack.antt =====
-- The packets that src/ml_dhcp_client.c sends. `&buf[k]` is the buffer with the offset `k`.
use monolinux_c_library.Inet.{checksum}
use monolinux_c_library.Prelude.{ℕ, ◌+◌, List, [], ◌∷◌, set, drop, replicate}
use monolinux_c_library.Prelude.Int.{ℤ}
use monolinux_c_library.Prelude.Words.{u8, shr}
use monolinux_c_library.Dhcp.State.{Client, ntohl, from_int}

-- Assignments `buf_p[i] = value` in order, with `buf_p` at an offset; a byte keeps the low 8 bits.
unfoldable pub write : ℕ → List (ℕ × ℕ) → List ℕ → List ℕ
write base [] buf = buf
write base ((i, value) ∷ rest) buf = write base rest (set buf (base + i) (u8 value))

-- memcpy() to `&buf_p[i]`.
unfoldable pub copy_bytes : ℕ → List ℕ → List ℕ → List ℕ
copy_bytes i [] buf = buf
copy_bytes i (b ∷ bytes) buf = copy_bytes (i + 1) bytes (set buf i b)

abbrev pub ip_fields : ℕ → List (ℕ × ℕ)
ip_fields size =
    (0, 0x45)
    ∷ (2, shr size 8)
    ∷ (3, size)
    ∷ (5, 0x11)
    ∷ (8, 255)
    ∷ (9, 17)
    ∷ (16, 255)
    ∷ (17, 255)
    ∷ (18, 255)
    ∷ (19, 255)
    ∷ []

-- MAXTTL is 255. The checksum is taken while its own field is zero.
unfoldable pub pack_ip_header : List ℕ → ℕ → ℕ → List ℕ
unfolding write
pack_ip_header buf base size =
    let buf' = write base (ip_fields size) buf in
    let c = checksum (drop base buf') 20 in write base ((10, shr c 8) ∷ (11, c) ∷ []) buf'

unfoldable pub pack_udp_header : List ℕ → ℕ → ℕ → List ℕ
unfolding write
pack_udp_header buf base size =
    write base ((0, 0) ∷ (1, 68) ∷ (2, 0) ∷ (3, 67) ∷ (4, shr size 8) ∷ (5, size) ∷ []) buf

-- The transaction identifier is 0x32493678, and BOOT_FLAGS 0x8000.
unfoldable pub pack_dhcp_fixed : List ℕ → ℕ → List ℕ → ℕ → List ℕ
unfolding write copy_bytes
pack_dhcp_fixed buf base mac_address message_type =
    write base
      ((236, 0x63)
        ∷ (237, 0x82)
        ∷ (238, 0x53)
        ∷ (239, 0x63)
        ∷ (240, 53)
        ∷ (241, 1)
        ∷ (242, message_type)
        ∷ [])
      (copy_bytes (base + 28) mac_address (
        write base
          ((0, 1)
            ∷ (1, 1)
            ∷ (2, 6)
            ∷ (4, shr 0x32493678 24)
            ∷ (5, shr 0x32493678 16)
            ∷ (6, shr 0x32493678 8)
            ∷ (7, 0x32493678)
            ∷ (10, shr 0x8000 8)
            ∷ (11, 0x8000)
            ∷ [])
          buf))

-- The four bytes of a `uint32_t`, most significant first.
abbrev pub word_fields : ℕ → ℕ → List (ℕ × ℕ) → List (ℕ × ℕ)
word_fields i value rest =
    (i, shr value 24) ∷ (i + 1, shr value 16) ∷ (i + 2, shr value 8) ∷ (i + 3, value) ∷ rest

-- `htonl` and `ntohl` are one function.
abbrev pub request_fields : ℕ → ℕ → ℤ → List (ℕ × ℕ)
request_fields server ip_address lease_time =
    (0, 54)
    ∷ (1, 4)
    ∷ word_fields 2 (ntohl server) (
        (6, 50)
        ∷ (7, 4)
        ∷ word_fields 8 (ntohl ip_address)
            ((12, 51) ∷ (13, 4) ∷ word_fields 14 (from_int lease_time) ((18, 255) ∷ [])))

unfoldable pub pack_dhcp_request : List ℕ → ℕ → Client → List ℕ
unfolding write ntohl from_int
pack_dhcp_request buf base c = write base (request_fields c.server c.ip_address c.lease_time) buf

abbrev pub discover_fields : List (ℕ × ℕ)
discover_fields =
    (271, 57)
    ∷ (272, 2)
    ∷ (273, shr 1024 8)
    ∷ (274, 1024)
    ∷ (275, 55)
    ∷ (276, 3)
    ∷ (277, 1)
    ∷ (278, 6)
    ∷ (279, 3)
    ∷ (280, 255)
    ∷ []

-- The buffers of broadcast_discover, broadcast_request and send_request.
unfoldable pub discover_packet : Client → List ℕ
unfolding write pack_ip_header pack_udp_header pack_dhcp_fixed
discover_packet c =
    let ip = pack_ip_header (replicate 604 0) 0 604 in
    let udp = pack_udp_header ip 20 584 in
    write 0 discover_fields (pack_dhcp_fixed udp 28 c.mac_address 1)

unfoldable pub request_packet : Client → List ℕ
unfolding pack_ip_header pack_udp_header pack_dhcp_fixed pack_dhcp_request
request_packet c =
    let ip = pack_ip_header (replicate 604 0) 0 604 in
    let udp = pack_udp_header ip 20 584 in
    pack_dhcp_request (pack_dhcp_fixed udp 28 c.mac_address 3) 271 c

unfoldable pub renew_packet : Client → List ℕ
unfolding pack_dhcp_fixed pack_dhcp_request
renew_packet c = pack_dhcp_request (pack_dhcp_fixed (replicate 576 0) 0 c.mac_address 3) 243 c
