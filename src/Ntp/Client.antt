-- ===== src/Ntp/Client.antt =====
-- The exchange with NTP servers, src/ml_ntp_client.c. The kernel and the resolver are a parameter
-- that answers each call from the calls made so far. Log output is left out.
use monolinux_c_library.Prelude.{
  ℕ, ◌%◌, List, [], ◌∷◌, drop, get_or, not, Bool, true, false, ltb, ◌==◌, if◌then◌else◌, replicate,
}
use monolinux_c_library.Prelude.Int.{is_zero, is_failed, ℤ, pos, negsuc, minus}
use monolinux_c_library.Prelude.Words.{shr}
use monolinux_c_library.Ntp.Time.{Timespec, ntp_time_to_timespec}

-- A call with the arguments that matter; an address is a `struct addrinfo`.
pub data Call : Type 0 where
  getaddrinfo : Call
  socket : ℕ → Call
  connect : ℤ → ℕ → Call
  write : ℤ → List ℕ → Call
  poll : ℤ → Call
  read : ℤ → Call
  clock_settime : Timespec → Call
  close : ℤ → Call

-- The result, `errno`, and the bytes that were read or the addresses that were found.
pub record Answer : Type 0 where
  pub res : ℤ
  pub errno : ℕ
  pub content : List ℕ

abbrev pub Trace : Type 0
Trace = List (Call × Answer)

abbrev pub is_value : ℕ → ℤ → Bool
is_value v (pos n) = n == v
is_value v (negsuc n) = false

abbrev pub is_below : ℕ → ℤ → Bool
is_below v (pos n) = ltb n v
is_below v (negsuc n) = true

-- Error numbers.
abbrev pub eproto : ℕ
eproto = 71

abbrev pub etimedout : ℕ
etimedout = 110

abbrev pub egeneral : ℕ
egeneral = 1000

-- (NTP_VERSION << 3) | NTP_MODE_CLIENT.
abbrev pub request : List ℕ
request = 35 ∷ replicate 47 0

-- What is made of the bytes that read() got.
unfoldable pub check_response : Answer → ℤ
check_response a =
    let first = get_or a.content 0 0 in
    if is_failed a.res
    then minus a.errno
    else if is_below 48 a.res
    then minus eproto
    else if not (first % 8 == 4)
    then minus eproto
    else if not (shr first 3 % 8 == 4)
    then minus eproto
    else pos 0

module _ (answer : Trace → Call → Answer) where
  -- The answer that `call c tr` gets.
  abbrev pub asked : Call → Trace → Answer
  asked c tr = answer tr c

  unfoldable pub call : Call → Trace → Trace
  call c tr = (c, answer tr c) ∷ tr

  unfoldable pub send_request : ℤ → Trace → Trace × ℤ
  unfolding call
  send_request sock tr =
      let a = asked (write sock request) tr in
      (call (write sock request) tr, if is_value 48 a.res then pos 0 else minus a.errno)

  -- The last part is `ts_p`, which counts where the result is 0.
  unfoldable pub receive_response : ℤ → Trace → Trace × ℤ × Timespec
  unfolding call check_response ntp_time_to_timespec
  receive_response sock tr =
      let polled = asked (poll sock) tr in
      let tr1 = call (poll sock) tr in
      let got = asked (read sock) tr1 in
      let ts = ntp_time_to_timespec (drop 32 got.content) in
      if is_failed polled.res
      then (tr1, minus polled.errno, ts)
      else if not (is_value 1 polled.res)
      then (tr1, minus etimedout, ts)
      else (call (read sock) tr1, check_response got, ts)

  unfoldable pub try_sync : ℤ → Trace → Trace × ℤ
  unfolding send_request receive_response
  try_sync sock tr =
      let (tr1, res) = send_request sock tr in
      let (tr2, res', ts) = receive_response sock tr1 in
      if not (is_zero res)
      then (tr1, res)
      else if not (is_zero res')
      then (tr2, res')
      else (call (clock_settime ts) tr2, (asked (clock_settime ts) tr2).res)

  abbrev pub closed : ℤ → Trace × ℤ → Trace × ℤ
  closed sock (tr, res) = (call (close sock) tr, res)

  unfoldable pub try_sync_with_server : ℕ → Trace → Trace × ℤ
  unfolding try_sync
  try_sync_with_server info tr =
      let opened = asked (socket info) tr in
      let tr1 = call (socket info) tr in
      let connected = asked (connect opened.res info) tr1 in
      let tr2 = call (connect opened.res info) tr1 in
      if is_failed opened.res
      then (tr1, minus opened.errno)
      else if is_zero connected.res
      then closed opened.res (try_sync opened.res tr2)
      else closed opened.res (tr2, connected.res)

  -- The loop over the addresses, with the result so far.
  unfoldable pub try_servers : List ℕ → Trace → ℤ → Trace × ℤ
  unfolding try_sync_with_server
  try_servers [] tr res = (tr, res)
  try_servers (info ∷ infos) tr res =
      let (tr', res') = try_sync_with_server info tr in
      let more = try_servers infos tr' res' in if is_zero res' then (tr', res') else more

  -- ml_ntp_client_sync().
  unfoldable pub sync : Trace → Trace × ℤ
  unfolding try_servers
  sync tr =
      let a = asked getaddrinfo tr in
      let tr' = call getaddrinfo tr in
      if is_zero a.res then try_servers a.content tr' (minus egeneral) else (tr', minus egeneral)
