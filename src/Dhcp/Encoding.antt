-- ===== src/Dhcp/Encoding.antt =====
-- The option parser of src/ml_dhcp_client.c against the format of options: number, length, data.
use monolinux_c_library.Prelude.{
  ℕ, zero, suc, ◌+◌, ◌≤◌, ◌<◌, ◌≡◌, ◌≢◌, refl, ap, ◌∙◌, List, [], ◌∷◌, ◌++◌, Option, none, some,
  length, take-length_append, drop-length_append, length-append, append_assoc, arith, All, Bool,
  true, false, leb, get_or, ◌==◌, ◌&&◌, ◌||◌, if◌then◌else◌,
}
use monolinux_c_library.Dhcp.State.{ntohl}
use monolinux_c_library.Dhcp.Options.{
  Options, be32_at, no_options, unpack_option, unpack_loop, unpack_all_options, option_end, ◌>>=◌,
}

-- An option with its data, as a server sends it.
abbrev pub Encoded : Type 0
Encoded = ℕ × List ℕ

abbrev pub encode : List Encoded → List ℕ
encode [] = []
encode ((number, bytes) ∷ opts) = number ∷ length bytes ∷ (bytes ++ encode opts)

-- A number that is not the end mark, and 1 to 255 bytes of data.
abbrev pub IsEncodable : Encoded → Type 0
IsEncodable o = (o.0 ≢ option_end) × (0 < length o.1) × (length o.1 ≤ 255)

-- Each option in turn.
unfoldable unpack_each : Options → List Encoded → Option Options
unpack_each o [] = some o
unpack_each o ((number, bytes) ∷ opts) =
    unpack_option o number bytes (length bytes) >>= λ o'. unpack_each o' opts

unpack_loop-end :
    (fuel : ℕ) (o : Options) (rest : List ℕ) → unpack_loop (suc fuel) o (option_end ∷ rest) ≡ some o
unfolding unpack_loop
unpack_loop-end fuel o [] = refl
unpack_loop-end fuel o (x ∷ rest) = refl

unpack_loop-cons :
    (fuel : ℕ) (o : Options) (number : ℕ) (bytes rest : List ℕ)
    → IsEncodable (number, bytes)
    → unpack_loop (suc fuel) o (number ∷ length bytes ∷ (bytes ++ rest))
      ≡ (unpack_option o number bytes (length bytes) >>= λ o'. unpack_loop fuel o' rest)
unfolding unpack_loop
unpack_loop-cons fuel o number bytes rest h =
    rw (take-length_append bytes rest, drop-length_append bytes rest)
      (ground (arith, length-append {0} bytes rest))

pub then_equal :
    (m : Option Options) (f g : Options → Option Options)
    → ((o : Options) → f o ≡ g o)
    → (m >>= f) ≡ (m >>= g)
then_equal none f g h = refl
then_equal (some o) f g h = h o

then_none : (m : Option Options) → (m >>= λ o. none) ≡ none
then_none none = refl
then_none (some o) = refl

unpack_loop-encode :
    (fuel : ℕ) (o : Options) (opts : List Encoded) (rest : List ℕ)
    → length opts < fuel
    → All IsEncodable opts
    → unpack_loop fuel o (encode opts ++ (option_end ∷ rest)) ≡ unpack_each o opts
unfolding unpack_each
unpack_loop-encode zero o opts rest f h = elim f [ ]
unpack_loop-encode (suc fuel) o [] rest f h = unpack_loop-end fuel o rest
unpack_loop-encode (suc fuel) o ((number, bytes) ∷ opts) rest f h =
    ap (λ l. unpack_loop (suc fuel) o (number ∷ length bytes ∷ l))
      (append_assoc bytes (encode opts) (option_end ∷ rest))
    ∙ unpack_loop-cons fuel o number bytes (encode opts ++ (option_end ∷ rest)) h.0
    ∙ then_equal (unpack_option o number bytes (length bytes)) _ _
        (λ o'. unpack_loop-encode fuel o' opts rest (omega arith) h.1)

unpack_loop-truncated :
    (fuel : ℕ) (o : Options) (opts : List Encoded)
    → All IsEncodable opts
    → unpack_loop fuel o (encode opts) ≡ none
unpack_loop-truncated zero o opts h = unfold unpack_loop in refl
unpack_loop-truncated (suc fuel) o [] h = unfold unpack_loop in refl
unpack_loop-truncated (suc fuel) o ((number, bytes) ∷ opts) h =
    unpack_loop-cons fuel o number bytes (encode opts) h.0
    ∙ then_equal (unpack_option o number bytes (length bytes)) _ (λ o'. none)
        (λ o'. unpack_loop-truncated fuel o' opts h.1)
    ∙ then_none (unpack_option o number bytes (length bytes))

length-encode : (opts : List Encoded) → length opts ≤ length (encode opts)
length-encode [] = omega arith
length-encode ((number, bytes) ∷ opts) =
    omega (arith, length-append {0} bytes (encode opts), length-encode opts)

-- What the parser makes of the data: a byte, a number of four bytes, or an address in network order.
abbrev pub first_byte : List ℕ → ℕ
first_byte bytes = get_or bytes 0 0

abbrev pub number_of : List ℕ → ℕ
number_of bytes = be32_at bytes 0

abbrev pub address_of : List ℕ → ℕ
address_of bytes = ntohl (be32_at bytes 0)

-- The size that the data of an option has by its number.
abbrev pub is_address : ℕ → Bool
is_address number = number == 1 || number == 3 || number == 54

abbrev pub is_time : ℕ → Bool
is_time number = number == 51 || number == 58 || number == 59

abbrev pub is_sized : Encoded → Bool
is_sized (number, bytes) =
    if number == 53
    then length bytes == 1
    else if number == 6
    then leb 4 (length bytes)
    else if is_address number || is_time number
    then length bytes == 4
    else true

abbrev pub are_sized : List Encoded → Bool
are_sized [] = true
are_sized (opt ∷ opts) = is_sized opt && are_sized opts

-- The value in the last option of a number, or else an old value.
abbrev pub latest : (List ℕ → ℕ) → ℕ → List Encoded → Option ℕ → Option ℕ
latest f n [] old = old
latest f n ((number, bytes) ∷ opts) old =
    latest f n opts (if number == n then some (f bytes) else old)

-- The options by their numbers, RFC 2132.
abbrev pub described : Options → List Encoded → Options
described o opts = record {
  subnet_mask = latest address_of 1 opts o.subnet_mask;
  gateway = latest address_of 3 opts o.gateway;
  dns = latest address_of 6 opts o.dns;
  lease_time = latest number_of 51 opts o.lease_time;
  message_type = latest first_byte 53 opts o.message_type;
  server_ip_address = latest address_of 54 opts o.server_ip_address;
  renewal_time = latest number_of 58 opts o.renewal_time;
  rebinding_time = latest number_of 59 opts o.rebinding_time;
}

unpack_option-described :
    (o : Options) (number : ℕ) (bytes : List ℕ)
    → unpack_option o number bytes (length bytes)
      ≡ (if is_sized (number, bytes) then some (described o ((number, bytes) ∷ [])) else none)
unfolding unpack_option
unpack_option-described o number bytes = ground arith

onward :
    (b c : Bool) (o o' : Options) (f : Options → Option Options)
    → f o ≡ (if c then some o' else none)
    → ((if b then some o else none) >>= f) ≡ (if b && c then some o' else none)
onward true c o o' f e = e
onward false c o o' f e = refl

unpack_each-described :
    (o : Options) (opts : List Encoded)
    → unpack_each o opts ≡ (if are_sized opts then some (described o opts) else none)
unfolding unpack_each
unpack_each-described o [] = refl
unpack_each-described o ((number, bytes) ∷ opts) =
    let o' = described o ((number, bytes) ∷ []) in
    let b = is_sized (number, bytes) in
    ap (λ m. m >>= λ p. unpack_each p opts) (unpack_option-described o number bytes)
    ∙ onward b (are_sized opts) o' (described o ((number, bytes) ∷ opts)) (λ p. unpack_each p opts)
        (unpack_each-described o' opts)

-- A list of options other than the end mark, with 1 to 255 bytes of data each, that is followed by the
-- end mark is read back, whatever stands behind it. If the data of an option that is known has another
-- size than its number asks for, the parser fails; else it gets for each known option the value of the
-- last one of its number, and leaves the others out.
pub unpack_all_options-encode :
    (opts : List Encoded) (rest : List ℕ)
    → All IsEncodable opts
    → unpack_all_options (encode opts ++ (option_end ∷ rest))
      ≡ (if are_sized opts then some (described no_options opts) else none)
unfolding unpack_all_options
unpack_all_options-encode opts rest h =
    unpack_loop-encode (length (encode opts ++ (option_end ∷ rest)) + 1) no_options opts rest
      (omega (arith, length-append {0} (encode opts) (option_end ∷ rest), length-encode opts)) h
    ∙ unpack_each-described no_options opts

-- A list of options with no end mark is an error, however its options are.
pub unpack_all_options-truncated :
    (opts : List Encoded) → All IsEncodable opts → unpack_all_options (encode opts) ≡ none
unfolding unpack_all_options
unpack_all_options-truncated opts h =
    unpack_loop-truncated (length (encode opts) + 1) no_options opts h
