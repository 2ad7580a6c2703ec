-- ===== src/Dhcp/Timers.antt =====
-- The client always waits on a timer that runs.
use monolinux_c_library.Prelude.{
  ℕ, suc, length, ◌≡◌, inl, inr, refl, ap, ◌∙◌, List, [], ◌∷◌, Bool, true, false, arith, Bool-cases,
  not, ◌&&◌, ◌||◌, ◌==◌, if◌then◌else◌,
}
use monolinux_c_library.Prelude.Int.{ℤ, pos}
use monolinux_c_library.Dhcp.State.{State, Client, Slot, renew, rebind, resp, start, init, bound}
use monolinux_c_library.Dhcp.System.{
  System, Trace, Call, settime, read_timer, close, broadcast, send, is_zero, call,
  setup_packet_socket, setup_udp_socket, configure_interface, broadcast_packet, send_packet, sent,
  set_init_timer, cancel_rebinding_timer, cancel_response_timer, set_renewal_timer, is_size, result,
}
use monolinux_c_library.Dhcp.Machine.{enter_init, enter_bound, or_init, enter_or}
use monolinux_c_library.Dhcp.Edges.{setup_udp_socket-state, enter_init-state}

abbrev pub same_slot : Slot → Slot → Bool
same_slot renew renew = true
same_slot rebind rebind = true
same_slot resp resp = true
same_slot start start = true
same_slot _ _ = false

-- A timer runs after it was set to a time that is not zero, until it is set again or read. A timer
-- whose setting failed is not known to run.
abbrev pub armed_by : Call → ℤ → Slot → Bool → Bool
armed_by (settime slot' sec nsec) r slot before =
    if same_slot slot' slot then is_zero r && (not (is_zero sec) || not (nsec == 0)) else before
armed_by (read_timer slot') r slot before = if same_slot slot' slot then false else before
armed_by _ r slot before = before

unfoldable pub armed : Slot → Trace → Bool
armed slot [] = false
armed slot ((c, r) ∷ tr) = armed_by c r slot (armed slot tr)

-- The timer that each state waits on.
abbrev pub awaited : State → Slot
awaited init = start
awaited bound = renew
awaited _ = resp

-- Whether the timer of a slot has been read as expired.
abbrev pub expired : Slot → Client → Bool
expired renew c = c.renewal_timer_expired
expired rebind c = c.rebinding_timer_expired
expired resp c = c.response_timer_expired
expired start c = c.init_timer_expired

-- Documented behaviour of timerfd_settime(): setting an open timer to a time that is not negative
-- works.
abbrev pub SettimeWorks : (Trace → Call → ℤ) → Type 0
SettimeWorks answer =
    (tr : Trace) (slot : Slot) (sec nsec : ℕ) → answer tr (settime slot (pos sec) nsec) ≡ pos 0

module _ (answer : Trace → Call → ℤ) where
  setup_packet_socket-armed :
      (slot : Slot) (s : System)
      → armed slot (setup_packet_socket answer s).trace ≡ armed slot s.trace
  unfolding setup_packet_socket armed
  setup_packet_socket-armed slot s = ground arith

  pub setup_udp_socket-armed :
      (slot : Slot) (s : System)
      → armed slot (setup_udp_socket answer s).0.trace ≡ armed slot s.trace
  unfolding setup_udp_socket armed
  setup_udp_socket-armed slot s = ground arith

  module _ (works : SettimeWorks answer) where
    armed-settime :
        (slot : Slot) (sec nsec : ℕ) (s : System)
        → armed slot (call answer (settime slot (pos (suc sec)) nsec) s).trace ≡ true
    unfolding call armed
    armed-settime renew sec nsec s = rw (works s.trace renew (suc sec) nsec) (ground arith)
    armed-settime rebind sec nsec s = rw (works s.trace rebind (suc sec) nsec) (ground arith)
    armed-settime resp sec nsec s = rw (works s.trace resp (suc sec) nsec) (ground arith)
    armed-settime start sec nsec s = rw (works s.trace start (suc sec) nsec) (ground arith)

    -- Whatever happens to the sockets, the init timer runs after a return to INIT.
    enter_init-armed : (s : System) → armed start (enter_init answer s).trace ≡ true
    enter_init-armed s =
        let s2 = cancel_rebinding_timer answer (cancel_response_timer answer s) in
        let s3 = set_init_timer answer 10 0 s2 in
        unfold enter_init in
        setup_packet_socket-armed start (call answer (close s3.client.sock) s3)
        ∙ (unfold call armed in armed-settime start 9 0 s2)

    pub enter_init-awaited :
        (s : System)
        → armed (awaited (enter_init answer s).client.state) (enter_init answer s).trace ≡ true
    enter_init-awaited s =
        ap (λ state. armed (awaited state) (enter_init answer s).trace) (enter_init-state answer s)
        ∙ enter_init-armed s

    or_init-armed :
        (r : System × Bool)
        → r.0.client.state ≡ bound
        → armed renew r.0.trace ≡ true
        → armed (awaited (or_init answer r).client.state) (or_init answer r).trace ≡ true
    or_init-armed (s, true) e a = ap (λ state. armed (awaited state) s.trace) e ∙ a
    or_init-armed (s, false) e a = enter_init-awaited s

    set_renewal-armed :
        (s : System) (n : ℕ)
        → s.client.renewal_interval ≡ pos (suc n)
        → armed renew (set_renewal_timer answer s).trace ≡ true
    set_renewal-armed s n e =
        ap (λ x. armed renew (call answer (settime renew x 0) s).trace) e
        ∙ armed-settime renew n 0 s

    pub enter_bound-armed :
        (s : System) (n : ℕ)
        → s.client.renewal_interval ≡ pos (suc n)
        → armed (awaited (enter_bound answer s).client.state) (enter_bound answer s).trace ≡ true
    unfolding enter_bound
    enter_bound-armed s n e = or_init-armed _ (setup_udp_socket-state answer _) (
        setup_udp_socket-armed renew _
        ∙ (unfold call armed configure_interface in
            set_renewal-armed (cancel_response_timer answer s) n e))

    sent-armed :
        (size : ℕ) (r : ℤ) (s : System)
        → (sent answer size r s).1 ≡ true
        → armed resp (sent answer size r s).0.trace ≡ true
    unfolding sent
    sent-armed size r s e = elim (Bool-cases (is_size r size)) [
      | inl p ↦ rw p (armed-settime resp 4 0 s)
      | inr p ↦ absurd (ground arith)
    ]

    pub broadcast_packet-armed :
        (buf : List ℕ) (s : System)
        → (broadcast_packet answer buf s).1 ≡ true
        → armed resp (broadcast_packet answer buf s).0.trace ≡ true
    broadcast_packet-armed buf s =
        let c = broadcast s.client.sock buf in
        unfold broadcast_packet in sent-armed (length buf) (result answer c s) (call answer c s)

    pub send_packet-armed :
        (buf : List ℕ) (s : System)
        → (send_packet answer buf s).1 ≡ true
        → armed resp (send_packet answer buf s).0.trace ≡ true
    send_packet-armed buf s =
        let c = send s.client.sock s.client.server buf in
        unfold send_packet in sent-armed (length buf) (result answer c s) (call answer c s)

    -- After a packet the client waits for the response, or on what the other branch set.
    pub enter_or-armed :
        (state : State) (otherwise : System → System) (r : System × Bool)
        → awaited state ≡ resp
        → (r.1 ≡ true → armed resp r.0.trace ≡ true)
        → armed (awaited (otherwise r.0).client.state) (otherwise r.0).trace ≡ true
        → armed
            (awaited (enter_or answer state otherwise r).client.state)
            (enter_or answer state otherwise r).trace
          ≡ true
    enter_or-armed state otherwise (s, true) w a b = ap (λ slot. armed slot s.trace) w ∙ a refl
    enter_or-armed state otherwise (s, false) w a b = b

    pub set_init_timer-armed :
        (s : System)
        → s.client.state ≡ init
        → (let s' = set_init_timer answer 10 0 s in armed (awaited s'.client.state) s'.trace ≡ true)
    set_init_timer-armed s e =
        unfold call in
        ap (λ state. armed (awaited state) (call answer (settime start (pos 10) 0) s).trace) e
        ∙ armed-settime start 9 0 s
