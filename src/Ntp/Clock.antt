-- ===== src/Ntp/Clock.antt =====
-- What the NTP client sets the clock to.
use monolinux_c_library.Prelude.{
  ℕ, ◌≡◌, ◌<◌, ◌≤◌, ◌%◌, ◌/◌, get_or, ◌⊎◌, refl, List, [], ◌∷◌, drop, true, false, arith,
  Bool-cases, inl, inr,
}
use monolinux_c_library.Prelude.Int.{ℤ, pos, negsuc, is_zero, is_failed, minus}
use monolinux_c_library.Ntp.Time.{Timespec, ntp_time_to_timespec}
use monolinux_c_library.Ntp.Client.{
  Call, socket, connect, write, poll, read, clock_settime, close, getaddrinfo, Answer, Trace, call,
  send_request, check_response, receive_response, try_sync, try_sync_with_server, try_servers, sync,
  closed, egeneral, is_value, is_below,
}

-- A whole response of a server, in version 4.
pub record IsResponse (a : Answer) : Type 0 where
  pub size : (n : ℕ) × (a.res ≡ pos n) × (48 ≤ n)
  pub mode : get_or a.content 0 0 % 8 ≡ 4
  pub version : get_or a.content 0 0 / 8 % 8 ≡ 4

-- The time is that of the response read last.
abbrev pub IsReceived : Timespec → Trace → Type 0
IsReceived ts tr =
    (sock : ℤ) × (a : Answer) × (rest : Trace) × (tr ≡ (read sock, a) ∷ rest)
    × IsResponse a
    × (ts ≡ ntp_time_to_timespec (drop 32 a.content))

-- Each time that the clock was set, it was set to a time just received.
abbrev pub IsSound : Trace → Type 0
IsSound [] = Unit {0}
IsSound ((getaddrinfo, a) ∷ tr) = IsSound tr
IsSound ((socket info, a) ∷ tr) = IsSound tr
IsSound ((connect sock info, a) ∷ tr) = IsSound tr
IsSound ((write sock buf, a) ∷ tr) = IsSound tr
IsSound ((poll sock, a) ∷ tr) = IsSound tr
IsSound ((read sock, a) ∷ tr) = IsSound tr
IsSound ((clock_settime ts, a) ∷ tr) = IsReceived ts tr × IsSound tr
IsSound ((close sock, a) ∷ tr) = IsSound tr

-- The clock was set by the last call.
abbrev pub IsClockSet : Trace → Type 0
IsClockSet tr =
    (ts : Timespec) × (a : Answer) × (rest : Trace) × (tr ≡ (clock_settime ts, a) ∷ rest)
    × (a.res ≡ pos 0)

-- And the socket closed behind that.
abbrev pub IsDone : Trace → Type 0
IsDone tr =
    (sock : ℤ) × (a : Answer) × (rest : Trace) × (tr ≡ (close sock, a) ∷ rest) × IsClockSet rest

-- A call that fails sets `errno`.
abbrev pub SetsErrno : (Trace → Call → Answer) → Type 0
SetsErrno answer =
    (tr : Trace) (c : Call) → is_failed (answer tr c).res ≡ true → 0 < (answer tr c).errno

ℤ-cases : (r : ℤ) → ((n : ℕ) × (r ≡ pos n)) ⊎ ((n : ℕ) × (r ≡ negsuc n))
ℤ-cases (pos n) = inl (n, refl)
ℤ-cases (negsuc n) = inr (n, refl)

is_zero-eq : (r : ℤ) → is_zero r ≡ true → r ≡ pos 0
is_zero-eq r h = ground arith

size-IsResponse : (a : Answer) → is_below 48 a.res ≡ false → (n : ℕ) × (a.res ≡ pos n) × (48 ≤ n)
size-IsResponse a h = elim (ℤ-cases a.res) [
  | inl (n, e) ↦ (n, e, ground arith)
  | inr (n, e) ↦ absurd (ground arith)
]

check_response-IsResponse :
    (a : Answer)
    → (is_failed a.res ≡ true → 0 < a.errno)
    → is_zero (check_response a) ≡ true
    → IsResponse a
unfolding check_response
check_response-IsResponse a k h = record {
  size = size-IsResponse a (ground arith);
  mode = ground arith;
  version = ground arith;
}

module _ (answer : Trace → Call → Answer) where
  -- Where a part of the exchange results in 0.
  received :
      (sock : ℤ) (tr : Trace)
      → SetsErrno answer
      → is_zero (receive_response answer sock tr).1 ≡ true
      → IsReceived (receive_response answer sock tr).2 (receive_response answer sock tr).0
  unfolding receive_response call
  received sock tr k h =
      let polled = answer tr (poll sock) in
      let tr1 : Trace = (poll sock, polled) ∷ tr in
      elim (Bool-cases (is_failed polled.res)) [
        | inl p ↦ absurd (ground (arith, k tr (poll sock) p))
        | inr p ↦ elim (Bool-cases (is_value 1 polled.res)) [
          | inl q ↦
              rw (p, q)
                (
                  sock,
                  answer tr1 (read sock),
                  tr1,
                  refl,
                  check_response-IsResponse (answer tr1 (read sock)) (k tr1 (read sock))
                      (rw (p, q) at h),
                  refl,
                )
          | inr q ↦ absurd (ground arith)
        ]
      ]

  receive_response-IsSound :
      (sock : ℤ) (tr : Trace) → IsSound tr → IsSound (receive_response answer sock tr).0
  unfolding receive_response call
  receive_response-IsSound sock tr s =
      let polled = answer tr (poll sock) in
      elim (Bool-cases (is_failed polled.res)) [
        | inl p ↦ rw p s
        | inr p ↦ elim (Bool-cases (is_value 1 polled.res)) [
          | inl q ↦ rw (p, q) s
          | inr q ↦ rw (p, q) s
        ]
      ]

  send_request-IsSound :
      (sock : ℤ) (tr : Trace) → IsSound tr → IsSound (send_request answer sock tr).0
  unfolding send_request call
  send_request-IsSound sock tr s = s

  try_sync-IsSound :
      (sock : ℤ) (tr : Trace)
      → SetsErrno answer
      → IsSound tr
      → IsSound (try_sync answer sock tr).0
        × (is_zero (try_sync answer sock tr).1 ≡ true → IsClockSet (try_sync answer sock tr).0)
  unfolding try_sync call
  try_sync-IsSound sock tr k s =
      let tr1 = (send_request answer sock tr).0 in
      let (tr2, res, ts) = receive_response answer sock tr1 in
      let a = answer tr2 (clock_settime ts) in
      let sent = send_request-IsSound sock tr s in
      let got = receive_response-IsSound sock tr1 sent in
      elim (Bool-cases (is_zero (send_request answer sock tr).1)) [
        | inr p ↦ rw p (sent, λ h. absurd (ground arith))
        | inl p ↦ elim (Bool-cases (is_zero (receive_response answer sock tr1).1)) [
          | inr q ↦ rw (p, q) (got, λ h. absurd (ground arith))
          | inl q ↦
              rw (p, q) ((received sock tr1 k q, got), λ h. (ts, a, tr2, refl, is_zero-eq a.res h))
        ]
      ]

  closed-IsSound :
      (sock : ℤ) (r : Trace × ℤ)
      → IsSound r.0
      → (is_zero r.1 ≡ true → IsClockSet r.0)
      → IsSound (closed answer sock r).0
        × (is_zero (closed answer sock r).1 ≡ true → IsDone (closed answer sock r).0)
  unfolding call
  closed-IsSound sock (tr, res) s d = (s, λ h. (sock, answer tr (close sock), tr, refl, d h))

  try_sync_with_server-IsSound :
      (info : ℕ) (tr : Trace)
      → SetsErrno answer
      → IsSound tr
      → IsSound (try_sync_with_server answer info tr).0
        × (is_zero (try_sync_with_server answer info tr).1 ≡ true
            → IsDone (try_sync_with_server answer info tr).0)
  unfolding try_sync_with_server call
  try_sync_with_server-IsSound info tr k s =
      let opened = answer tr (socket info) in
      let tr1 = call answer (socket info) tr in
      let connected = answer tr1 (connect opened.res info) in
      let tr2 = call answer (connect opened.res info) tr1 in
      elim (Bool-cases (is_failed opened.res)) [
        | inl p ↦ rw p (s, λ h. absurd (ground (arith, k tr (socket info) p)))
        | inr p ↦ elim (Bool-cases (is_zero connected.res)) [
          | inl q ↦
              let (sound, set) = try_sync-IsSound opened.res tr2 k s in
              rw (p, q) (closed-IsSound opened.res (try_sync answer opened.res tr2) sound set)
          | inr q ↦
              rw (p, q)
                (closed-IsSound opened.res (tr2, connected.res) s (λ h. absurd (ground arith)))
        ]
      ]

  try_servers-IsSound :
      (infos : List ℕ) (tr : Trace) (res : ℤ)
      → SetsErrno answer
      → IsSound tr
      → is_zero res ≡ false
      → IsSound (try_servers answer infos tr res).0
        × (is_zero (try_servers answer infos tr res).1 ≡ true
            → IsDone (try_servers answer infos tr res).0)
  unfolding try_servers
  try_servers-IsSound [] tr res k s z = (s, λ h. absurd (ground arith))
  try_servers-IsSound (info ∷ infos) tr res k s z =
      let (tr', res') = try_sync_with_server answer info tr in
      let (sound, set) = try_sync_with_server-IsSound info tr k s in
      elim (Bool-cases (is_zero (try_sync_with_server answer info tr).1)) [
        | inl p ↦ rw p (sound, λ h. set p)
        | inr p ↦ rw p (try_servers-IsSound infos tr' res' k sound p)
      ]

  sync-IsDone :
      (tr : Trace)
      → SetsErrno answer
      → IsSound tr
      → IsSound (sync answer tr).0 × (is_zero (sync answer tr).1 ≡ true → IsDone (sync answer tr).0)
  unfolding sync call
  sync-IsDone tr k s =
      let a = answer tr getaddrinfo in
      let tr' = call answer getaddrinfo tr in
      elim (Bool-cases (is_zero a.res)) [
        | inl p ↦ rw p (try_servers-IsSound a.content tr' (minus egeneral) k s refl)
        | inr p ↦ rw p (s, λ h. absurd (ground arith))
      ]

  -- Where each call that fails sets `errno`, and the clock was set only so before, whatever the calls
  -- result in, ml_ntp_client_sync sets the clock only to times that it has just received in a
  -- response of at least 48 bytes, in server mode and version 4; and where its result is 0 it has
  -- set the clock, successfully and as its last act but for closing the socket.
  pub sync-IsSound :
      (tr : Trace)
      → SetsErrno answer
      → IsSound tr
      → IsSound (sync answer tr).0
        × ((is_zero (sync answer tr).1 ≡ false) ⊎ IsDone (sync answer tr).0)
  sync-IsSound tr k s =
      let (sound, set) = sync-IsDone tr k s in
      elim (Bool-cases (is_zero (sync answer tr).1)) [
        | inl p ↦ (sound, inr (set p))
        | inr p ↦ (sound, inl p)
      ]
