-- ===== src/Ntp/Closed.antt =====
-- What the NTP client opens, it closes.
use monolinux_c_library.Prelude.{ℕ, ◌+◌, ◌≡◌, List, [], ◌∷◌, arith, not, ◌&&◌, if◌then◌else◌}
use monolinux_c_library.Prelude.Int.{ℤ, is_failed, same_fd, minus}
use monolinux_c_library.Ntp.Client.{
  Call, socket, connect, close, getaddrinfo, Answer, Trace, call, send_request, receive_response,
  try_sync, try_sync_with_server, try_servers, sync, egeneral,
}

abbrev pub opening : Call → Answer → ℤ → ℕ
opening (socket info) a fd = if not (is_failed a.res) && same_fd a.res fd then 1 else 0
opening _ a fd = 0

-- How often a descriptor was opened, and closed.
unfoldable pub opens : ℤ → Trace → ℕ
opens fd [] = 0
opens fd ((c, a) ∷ tr) = opening c a fd + opens fd tr

abbrev pub closing : Call → ℤ → ℕ
closing (close fd') fd = if same_fd fd' fd then 1 else 0
closing _ fd = 0

unfoldable pub closes : ℤ → Trace → ℕ
closes fd [] = 0
closes fd ((c, a) ∷ tr) = closing c fd + closes fd tr

-- Between two traces a descriptor was opened as often as it was closed.
abbrev pub IsBalanced : ℤ → Trace → Trace → Type 0
IsBalanced fd tr tr' = opens fd tr' + closes fd tr ≡ closes fd tr' + opens fd tr

module _ (answer : Trace → Call → Answer) (fd : ℤ) where
  send_request-IsBalanced :
      (sock : ℤ) (tr : Trace) → IsBalanced fd tr (send_request answer sock tr).0
  unfolding send_request call opens closes
  send_request-IsBalanced sock tr = omega arith

  receive_response-IsBalanced :
      (sock : ℤ) (tr : Trace) → IsBalanced fd tr (receive_response answer sock tr).0
  unfolding receive_response call opens closes
  receive_response-IsBalanced sock tr = ground arith

  try_sync-IsBalanced : (sock : ℤ) (tr : Trace) → IsBalanced fd tr (try_sync answer sock tr).0
  unfolding try_sync call opens closes
  try_sync-IsBalanced sock tr = ground (
    arith,
    send_request-IsBalanced sock tr,
    receive_response-IsBalanced sock (send_request answer sock tr).0,
  )

  try_sync_with_server-IsBalanced :
      (info : ℕ) (tr : Trace) → IsBalanced fd tr (try_sync_with_server answer info tr).0
  unfolding try_sync_with_server call opens closes
  try_sync_with_server-IsBalanced info tr =
      let sock = (answer tr (socket info)).res in
      let tr1 = call answer (socket info) tr in
      ground (arith, try_sync-IsBalanced sock (call answer (connect sock info) tr1))

  try_servers-IsBalanced :
      (infos : List ℕ) (tr : Trace) (res : ℤ) → IsBalanced fd tr (try_servers answer infos tr res).0
  unfolding try_servers
  try_servers-IsBalanced [] tr res = omega arith
  try_servers-IsBalanced (info ∷ infos) tr res =
      let (tr', res') = try_sync_with_server answer info tr in
      ground (arith, try_sync_with_server-IsBalanced info tr, try_servers-IsBalanced infos tr' res')

  -- Whatever the calls result in, and however many servers are tried, ml_ntp_client_sync closes each
  -- descriptor as often as it opens it.
  pub sync-IsBalanced : (tr : Trace) → IsBalanced fd tr (sync answer tr).0
  unfolding sync call opens closes
  sync-IsBalanced tr =
      let a = answer tr getaddrinfo in
      ground (arith, try_servers-IsBalanced a.content (call answer getaddrinfo tr) (minus egeneral))
