-- ===== src/Dhcp/Options.antt =====
-- unpack_option and unpack_all_options of src/ml_dhcp_client.c. A result of -1 is `none`.
use monolinux_c_library.Prelude.{
  ℕ, zero, suc, ◌+◌, List, [], ◌∷◌, Option, none, some, length, get_or, take, drop, ltb, ◌==◌,
  if◌then◌else◌, Bool,
}
use monolinux_c_library.Prelude.Words.{be32}
use monolinux_c_library.Dhcp.State.{ntohl}

-- An option that was not seen is `none`: its `valid` flag is false, and its value is not read.
pub record Options : Type 0 where
  pub message_type : Option ℕ
  pub subnet_mask : Option ℕ
  pub gateway : Option ℕ
  pub dns : Option ℕ
  pub lease_time : Option ℕ
  pub renewal_time : Option ℕ
  pub rebinding_time : Option ℕ
  pub server_ip_address : Option ℕ

abbrev pub no_options : Options
no_options = record {
  message_type = none;
  subnet_mask = none;
  gateway = none;
  dns = none;
  lease_time = none;
  renewal_time = none;
  rebinding_time = none;
  server_ip_address = none;
}

-- The four bytes from an index on, most significant first.
abbrev pub be32_at : List ℕ → ℕ → ℕ
be32_at buf i =
    be32 (get_or buf i 0) (get_or buf (i + 1) 0) (get_or buf (i + 2) 0) (get_or buf (i + 3) 0)

unfoldable pub unpack_option_u8 : List ℕ → ℕ → Option ℕ
unpack_option_u8 buf size = if size == 1 then some (get_or buf 0 0) else none

unfoldable pub unpack_option_u32 : List ℕ → ℕ → Option ℕ
unpack_option_u32 buf size = if size == 4 then some (be32_at buf 0) else none

unfoldable pub unpack_option_in_addr : List ℕ → ℕ → Option ℕ
unpack_option_in_addr buf size = if size == 4 then some (ntohl (be32_at buf 0)) else none

-- The value of an option is stored if it was unpacked.
abbrev pub store : Option ℕ → (ℕ → Options) → Option Options
store none f = none
store (some v) f = some (f v)

-- An early return on an error.
infixl 5 ◌>>=◌
abbrev pub ◌>>=◌ : Option Options → (Options → Option Options) → Option Options
none >>= f = none
some o >>= f = f o

-- The switch of unpack_option, by the option's number.
unfoldable pub unpack_option : Options → ℕ → List ℕ → ℕ → Option Options
unfolding unpack_option_u8 unpack_option_u32 unpack_option_in_addr
unpack_option o option buf length =
    if option == 1
    then store (unpack_option_in_addr buf length) (λ v. record o { subnet_mask = some v })
    else if option == 3
    then store (unpack_option_in_addr buf length) (λ v. record o { gateway = some v })
    else if option == 6
    then store (unpack_option_in_addr buf (if ltb 4 length then 4 else length))
        (λ v. record o { dns = some v })
    else if option == 53
    then store (unpack_option_u8 buf length) (λ v. record o { message_type = some v })
    else if option == 51
    then store (unpack_option_u32 buf length) (λ v. record o { lease_time = some v })
    else if option == 58
    then store (unpack_option_u32 buf length) (λ v. record o { renewal_time = some v })
    else if option == 59
    then store (unpack_option_u32 buf length) (λ v. record o { rebinding_time = some v })
    else if option == 54
    then store (unpack_option_in_addr buf length) (λ v. record o { server_ip_address = some v })
    else some o

abbrev pub option_end : ℕ
option_end = 255

-- The loop of unpack_all_options over the rest of the file. fread() of no bytes returns 0, which
-- the code takes for an error. Fuel bounds the rounds: one more than the bytes is enough.
unfoldable pub unpack_loop : ℕ → Options → List ℕ → Option Options
unpack_loop zero o file = none
unpack_loop (suc fuel) o [] = none
unpack_loop (suc fuel) o (option ∷ []) = if option == option_end then some o else none
unpack_loop (suc fuel) o (option ∷ size ∷ file) =
    let rest =
      unpack_option o option (take size file) size >>= λ o'. unpack_loop fuel o' (drop size file) in
    if option == option_end
    then some o
    else if size == 0
    then none
    else if ltb (length file) size
    then none
    else rest

unfoldable pub unpack_all_options : List ℕ → Option Options
unfolding unpack_loop
unpack_all_options file = unpack_loop (length file + 1) no_options file

-- fmemopen() may fail, which `opened` says.
unfoldable pub unpack_options : Bool → List ℕ → Option Options
unfolding unpack_all_options
unpack_options opened buf = if opened then unpack_all_options buf else none
