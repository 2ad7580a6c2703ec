-- ===== src/Dhcp/Liveness.antt =====
-- No state of the client is a dead end: between two passes of the loop the timer that it waits on
-- runs.
use monolinux_c_library.Prelude.{
  ℕ, suc, ◌≡◌, ◌⊎◌, inl, inr, refl, sym, ap, ◌∙◌, true, false, arith, Bool-cases, if◌then◌else◌,
}
use mathlib.Core.Bool.{false≢true}
use monolinux_c_library.Prelude.Int.{ℤ, pos}
use monolinux_c_library.Dhcp.State.{State, resp, init, selecting, requesting, bound, renewing}
use monolinux_c_library.Dhcp.Pack.{discover_packet, request_packet, renew_packet}
use monolinux_c_library.Dhcp.System.{
  System, Trace, Call, broadcast_discover, broadcast_request, send_request, set_init_timer,
  broadcast_packet, send_packet,
}
use monolinux_c_library.Dhcp.Machine.{
  enter_init, process_events, process_events_init, process_events_selecting,
  process_events_requesting, process_events_bound, process_events_renewing, is_offer, is_ack,
  is_nak, dispatch, enter_or,
}
use monolinux_c_library.Dhcp.Edges.{broadcast_packet-client}
use monolinux_c_library.Dhcp.Timers.{
  armed, awaited, expired, SettimeWorks, enter_init-awaited, enter_bound-armed,
  broadcast_packet-armed, send_packet-armed, enter_or-armed, set_init_timer-armed,
}

-- The timer that the client's state waits on runs.
abbrev pub IsWaiting : System → Type 0
IsWaiting s = armed (awaited s.client.state) s.trace ≡ true

-- It runs, or it has expired and the handler is about to see that.
abbrev pub IsPending : System → Type 0
IsPending s = IsWaiting s ⊎ (expired (awaited s.client.state) s.client ≡ true)

not_expired :
    (s : System) (state : State)
    → s.client.state ≡ state
    → IsPending s
    → expired (awaited state) s.client ≡ false
    → IsWaiting s
not_expired s state e (inl w) f = w
not_expired s state e (inr x) f = absurd (ground arith)

not_expired_resp :
    (s : System)
    → awaited s.client.state ≡ resp
    → IsPending s
    → s.client.response_timer_expired ≡ false
    → IsWaiting s
not_expired_resp s e (inl w) f = w
not_expired_resp s e (inr x) f =
    absurd (false≢true (sym f ∙ sym (ap (λ slot. expired slot s.client) e) ∙ x))

module _ (answer : Trace → Call → ℤ) (works : SettimeWorks answer) where
  discover_or_retry :
      (s : System)
      → s.client.state ≡ init
      → IsWaiting
          (enter_or answer selecting (set_init_timer answer 10 0) (broadcast_discover answer s))
  discover_or_retry s e =
      unfold broadcast_discover in
      enter_or-armed answer works selecting (set_init_timer answer 10 0)
        (broadcast_packet answer (discover_packet s.client) s) refl
        (broadcast_packet-armed answer works (discover_packet s.client) s)
        (set_init_timer-armed answer works (broadcast_packet answer (discover_packet s.client) s).0
          (ap (λ c. c.state) (broadcast_packet-client answer (discover_packet s.client) s) ∙ e))

  request_or_init :
      (s : System)
      → IsWaiting (enter_or answer requesting (enter_init answer) (broadcast_request answer s))
  request_or_init s =
      unfold broadcast_request in
      enter_or-armed answer works requesting (enter_init answer)
        (broadcast_packet answer (request_packet s.client) s) refl
        (broadcast_packet-armed answer works (request_packet s.client) s)
        (enter_init-awaited answer works (broadcast_packet answer (request_packet s.client) s).0)

  renew_or_init :
      (s : System)
      → IsWaiting (enter_or answer renewing (enter_init answer) (send_request answer s))
  renew_or_init s =
      unfold send_request in
      enter_or-armed answer works renewing (enter_init answer)
        (send_packet answer (renew_packet s.client) s) refl
        (send_packet-armed answer works (renew_packet s.client) s)
        (enter_init-awaited answer works (send_packet answer (renew_packet s.client) s).0)

  IsWaiting-init :
      (s : System) → s.client.state ≡ init → IsPending s → IsWaiting (process_events_init answer s)
  unfolding process_events_init
  IsWaiting-init s e p = elim (Bool-cases s.client.init_timer_expired) [
    | inr f ↦ simp f (not_expired s init e p f)
    | inl t ↦ simp t (discover_or_retry s e)
  ]

  -- The common end of the handlers: back to INIT on the response timeout, or nothing.
  init_on_timeout :
      (s : System)
      → awaited s.client.state ≡ resp
      → IsPending s
      → IsWaiting (if s.client.response_timer_expired then enter_init answer s else s)
  init_on_timeout s e p = elim (Bool-cases s.client.response_timer_expired) [
    | inl t ↦ simp t (enter_init-awaited answer works s)
    | inr f ↦ simp f (not_expired_resp s e p f)
  ]

  init_on_timeouts :
      (s : System)
      → awaited s.client.state ≡ resp
      → IsPending s
      → IsWaiting (
          if s.client.response_timer_expired
          then enter_init answer s
          else if s.client.rebinding_timer_expired
          then enter_init answer s
          else s)
  init_on_timeouts s e p = elim (Bool-cases s.client.response_timer_expired) [
    | inl t ↦ simp t (enter_init-awaited answer works s)
    | inr f ↦ simp f (elim (Bool-cases s.client.rebinding_timer_expired) [
      | inl t ↦ simp t (enter_init-awaited answer works s)
      | inr g ↦ simp g (not_expired_resp s e p f)
    ])
  ]

  IsWaiting-selecting :
      (s : System)
      → s.client.state ≡ selecting
      → IsPending s
      → IsWaiting (process_events_selecting answer s)
  unfolding process_events_selecting
  IsWaiting-selecting s e p = elim (Bool-cases (is_offer s.client.packet_type)) [
    | inl t ↦ simp t (request_or_init s)
    | inr f ↦ simp f (init_on_timeout s (ap awaited e) p)
  ]

  IsWaiting-requesting :
      (s : System) (n : ℕ)
      → s.client.renewal_interval ≡ pos (suc n)
      → s.client.state ≡ requesting
      → IsPending s
      → IsWaiting (process_events_requesting answer s)
  unfolding process_events_requesting
  IsWaiting-requesting s n r e p = elim (Bool-cases (is_ack s.client.packet_type)) [
    | inl t ↦ simp t (enter_bound-armed answer works s n r)
    | inr f ↦ simp f (elim (Bool-cases (is_nak s.client.packet_type)) [
      | inl t ↦ simp t (enter_init-awaited answer works s)
      | inr g ↦ simp g (init_on_timeout s (ap awaited e) p)
    ])
  ]

  IsWaiting-bound :
      (s : System)
      → s.client.state ≡ bound
      → IsPending s
      → IsWaiting (process_events_bound answer s)
  unfolding process_events_bound
  IsWaiting-bound s e p = elim (Bool-cases s.client.renewal_timer_expired) [
    | inl t ↦ simp t (renew_or_init s)
    | inr f ↦ simp f (not_expired s bound e p f)
  ]

  IsWaiting-renewing :
      (s : System) (n : ℕ)
      → s.client.renewal_interval ≡ pos (suc n)
      → s.client.state ≡ renewing
      → IsPending s
      → IsWaiting (process_events_renewing answer s)
  unfolding process_events_renewing
  IsWaiting-renewing s n r e p = elim (Bool-cases (is_ack s.client.packet_type)) [
    | inl t ↦ simp t (enter_bound-armed answer works s n r)
    | inr f ↦ simp f (elim (Bool-cases (is_nak s.client.packet_type)) [
      | inl t ↦ simp t (enter_init-awaited answer works s)
      | inr g ↦ simp g (init_on_timeouts s (ap awaited e) p)
    ])
  ]

  -- Where timers can be set, and the renewal interval is at least a second, every pass of the
  -- handlers leaves a running timer that its new state waits on, provided that the timer of the old
  -- state ran or has just expired: whatever packets are lost and whatever socket calls fail, the
  -- client is woken again.
  pub process_events-IsWaiting :
      (s : System) (n : ℕ)
      → s.client.renewal_interval ≡ pos (suc n)
      → IsPending s
      → IsWaiting (process_events answer s)
  unfolding process_events
  process_events-IsWaiting s n r p = go s.client.state refl
    where
      go : (state : State) → s.client.state ≡ state → IsWaiting (dispatch answer state s)
      go init e = IsWaiting-init s e p
      go selecting e = IsWaiting-selecting s e p
      go requesting e = IsWaiting-requesting s n r e p
      go bound e = IsWaiting-bound s e p
      go renewing e = IsWaiting-renewing s n r e p
