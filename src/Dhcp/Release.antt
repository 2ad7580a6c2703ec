-- ===== src/Dhcp/Release.antt =====
-- What the start of the client opens, it closes again where it fails.
use monolinux_c_library.Prelude.{
  ℕ, ◌+◌, ◌≡◌, refl, List, [], ◌∷◌, Bool, true, false, arith, not, ◌&&◌, if◌then◌else◌, Bool-cases,
  inl, inr,
}
use monolinux_c_library.Prelude.Int.{ℤ}
use monolinux_c_library.Dhcp.State.{Slot, renew, rebind, resp, start}
use monolinux_c_library.Dhcp.System.{
  System, Trace, Call, close, packet_socket, udp_socket, timer_create, interface_index,
  interface_mac_address, thread_create, is_zero, is_failed, call, result, setup_packet_socket,
  set_init_timer,
}
use monolinux_c_library.Dhcp.Timers.{same_slot}
use monolinux_c_library.Dhcp.Sockets.{same_fd, closes}
use monolinux_c_library.Dhcp.Start.{
  Starting, with_system, with_mac, packet_socket_result, setup_timer, close_all, give_back,
  after_start, after_resp, after_rebind, after_renew, after_socket, after_init, init, destroy,
  start_client,
}

abbrev pub is_opening : Call → Bool
is_opening packet_socket = true
is_opening udp_socket = true
is_opening (timer_create slot) = true
is_opening _ = false

abbrev pub one_if : Bool → ℕ
one_if b = if b then 1 else 0

-- How often a descriptor was opened.
unfoldable pub opens : ℤ → Trace → ℕ
opens fd [] = 0
opens fd ((c, r) ∷ tr) = one_if (is_opening c && not (is_failed r) && same_fd r fd) + opens fd tr

-- How often a descriptor stands in a list.
abbrev pub count : ℤ → List ℤ → ℕ
count fd [] = 0
count fd (x ∷ xs) = one_if (same_fd x fd) + count fd xs

-- Between two systems a descriptor was opened as often as it was closed, and `extra` times more.
abbrev pub Opened : ℤ → System → System → ℕ → Type 0
Opened fd s s' extra =
    opens fd s'.trace + closes fd s.trace ≡ closes fd s'.trace + opens fd s.trace + extra

module _ (answer : Trace → Call → ℤ) (fd : ℤ) where
  Opened-setup_packet_socket :
      (s : System)
      → Opened fd s (setup_packet_socket answer s) (
          if is_zero (packet_socket_result answer s)
          then count fd ((setup_packet_socket answer s).client.sock ∷ [])
          else 0)
  unfolding setup_packet_socket packet_socket_result opens closes
  Opened-setup_packet_socket s = ground arith

  Opened-close_all :
      (fds : List ℤ) (s : System) → Opened fd (close_all answer fds s) s (count fd fds)
  unfolding close_all call opens closes
  Opened-close_all [] s = omega arith
  Opened-close_all (x ∷ fds) s = ground (arith, Opened-close_all fds (call answer (close x) s))

  -- A timer that is set up adds its descriptor, and leaves the client and the other timers.
  Opened-setup_timer :
      (slot : Slot) (t : Starting)
      → Opened fd t.system (setup_timer answer slot t).0.system (
          if (setup_timer answer slot t).1
          then count fd ((setup_timer answer slot t).0.fds slot ∷ [])
          else 0)
        × ((setup_timer answer slot t).0.system.client ≡ t.system.client)
        × ((other : Slot)
            → same_slot slot other ≡ false
            → (setup_timer answer slot t).0.fds other ≡ t.fds other)
  unfolding setup_timer opens closes
  Opened-setup_timer renew t = ground arith
  Opened-setup_timer rebind t = ground arith
  Opened-setup_timer resp t = ground arith
  Opened-setup_timer start t = ground arith

  -- The five descriptors of the poll list.
  abbrev pub poll_list : Starting → List ℤ
  poll_list t = t.system.client.sock ∷ t.fds renew ∷ t.fds rebind ∷ t.fds resp ∷ t.fds start ∷ []

  -- All five are open, or none that was opened still is.
  abbrev pub AllOrNone : System → Starting × ℤ → Type 0
  AllOrNone s o = Opened fd s o.0.system (if is_zero o.1 then count fd (poll_list o.0) else 0)

  AllOrNone-give_back :
      (s : System) (t : Starting) (fds : List ℤ)
      → Opened fd s t.system (count fd fds)
      → AllOrNone s (give_back answer t fds)
  AllOrNone-give_back s t fds h = omega (arith, Opened-close_all fds t.system)

  AllOrNone-after_start :
      (s : System) (r : Starting × Bool)
      → Opened fd s r.0.system (
          count fd (r.0.fds resp ∷ r.0.fds rebind ∷ r.0.fds renew ∷ r.0.system.client.sock ∷ [])
          + (if r.1 then count fd (r.0.fds start ∷ []) else 0))
      → AllOrNone s (after_start answer r)
  AllOrNone-after_start s (t, true) h = omega arith
  AllOrNone-after_start s (t, false) h =
      AllOrNone-give_back s t (t.fds resp ∷ t.fds rebind ∷ t.fds renew ∷ t.system.client.sock ∷ [])
        (omega arith)

  AllOrNone-after_resp :
      (s : System) (r : Starting × Bool)
      → Opened fd s r.0.system (
          count fd (r.0.fds rebind ∷ r.0.fds renew ∷ r.0.system.client.sock ∷ [])
          + (if r.1 then count fd (r.0.fds resp ∷ []) else 0))
      → AllOrNone s (after_resp answer r)
  AllOrNone-after_resp s (t, true) h =
      let (o, c, f) = Opened-setup_timer start t in
      AllOrNone-after_start s (setup_timer answer start t)
        (rw (c, f renew refl, f rebind refl, f resp refl) (omega arith))
  AllOrNone-after_resp s (t, false) h =
      AllOrNone-give_back s t (t.fds rebind ∷ t.fds renew ∷ t.system.client.sock ∷ []) (omega arith)

  AllOrNone-after_rebind :
      (s : System) (r : Starting × Bool)
      → Opened fd s r.0.system (
          count fd (r.0.fds renew ∷ r.0.system.client.sock ∷ [])
          + (if r.1 then count fd (r.0.fds rebind ∷ []) else 0))
      → AllOrNone s (after_rebind answer r)
  AllOrNone-after_rebind s (t, true) h =
      let (o, c, f) = Opened-setup_timer resp t in
      AllOrNone-after_resp s (setup_timer answer resp t)
        (rw (c, f renew refl, f rebind refl) (omega arith))
  AllOrNone-after_rebind s (t, false) h =
      AllOrNone-give_back s t (t.fds renew ∷ t.system.client.sock ∷ []) (omega arith)

  AllOrNone-after_renew :
      (s : System) (r : Starting × Bool)
      → Opened fd s r.0.system (
          count fd (r.0.system.client.sock ∷ [])
          + (if r.1 then count fd (r.0.fds renew ∷ []) else 0))
      → AllOrNone s (after_renew answer r)
  AllOrNone-after_renew s (t, true) h =
      let (o, c, f) = Opened-setup_timer rebind t in
      AllOrNone-after_rebind s (setup_timer answer rebind t) (rw (c, f renew refl) (omega arith))
  AllOrNone-after_renew s (t, false) h =
      AllOrNone-give_back s t (t.system.client.sock ∷ []) (omega arith)

  AllOrNone-after_socket :
      (s : System) (t : Starting) (res : ℤ)
      → Opened fd s t.system (if is_zero res then count fd (t.system.client.sock ∷ []) else 0)
      → AllOrNone s (after_socket answer (t, res))
  AllOrNone-after_socket s t res h = elim (Bool-cases (is_zero res)) [
    | inl p ↦
        let (o, c, f) = Opened-setup_timer renew t in
        let had : Opened fd s t.system (count fd (t.system.client.sock ∷ [])) = ground arith in
        rw p (AllOrNone-after_renew s (setup_timer answer renew t) (rw c (omega arith)))
    | inr p ↦ ground arith
  ]

  AllOrNone-init : (mac : List ℕ) (t : Starting) → AllOrNone t.system (init answer mac t)
  unfolding init call opens closes
  AllOrNone-init mac t =
      let index = result answer interface_index t.system in
      let s1 = call answer interface_index t.system in
      let address = result answer interface_mac_address s1 in
      let s2 = call answer interface_mac_address s1 in
      let s3 : System = with_mac s2 mac in
      let ready = with_system t (setup_packet_socket answer s3) in
      elim (Bool-cases (is_zero index)) [
        | inr p ↦ ground arith
        | inl p ↦ elim (Bool-cases (is_zero address)) [
          | inr q ↦ ground arith
          | inl q ↦ rw p (
              rw q (
                AllOrNone-after_socket t.system ready (packet_socket_result answer s3)
                  (ground (arith, Opened-setup_packet_socket s3))))
        ]
      ]

  AllOrNone-after_init :
      (s : System) (o : Starting × ℤ) → AllOrNone s o → AllOrNone s (after_init answer o)
  unfolding call destroy opens closes
  AllOrNone-after_init s (t, res) h =
      let s1 : System = set_init_timer answer 0 1 t.system in
      let s2 : System = call answer thread_create s1 in
      ground (arith, Opened-close_all (poll_list t) s2)

  -- A start that fails, at whatever step, closes each descriptor as often as it opened it; a start
  -- that works leaves exactly the five descriptors of the poll list open.
  pub start_client-AllOrNone :
      (mac : List ℕ) (t : Starting) → AllOrNone t.system (start_client answer mac t)
  unfolding start_client
  start_client-AllOrNone mac t =
      AllOrNone-after_init t.system (init answer mac t) (AllOrNone-init mac t)
