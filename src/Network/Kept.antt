-- ===== src/Network/Kept.antt =====
-- ml_network_interface_link_configure of src/ml_network.c, and the command `ethtool`, on a kernel
-- that keeps the settings.
use Prim.Native.String.{String}
use monolinux_c_library.Prelude.{
  ℕ, ◌≡◌, ◌≤◌, refl, List, [], ◌∷◌, false, not, ◌&&◌, ◌||◌, ◌==◌, ◌⊎◌, inl, inr, Option, none, some,
  if◌then◌else◌, arith,
}
use monolinux_c_library.Prelude.Int.{ℤ, pos, is_zero, is_failed}
use monolinux_c_library.Prelude.Text.{Text, codes, same, same_refl, eq_of_same}
use monolinux_c_library.Network.System.{
  Call, socket, ioctl_ethtool, Settings, Answer, Trace, kernel_name, call, net_open, net_close,
}
use monolinux_c_library.Network.Link.{
  ethtool_gset, ethtool_sset, overwrite, u8_of, u32_of, is_changed, speed_arg, duplex_arg,
  autoneg_arg, get_settings, put_settings, interface_link_configure, link_configure_args,
  ethtool_link_configure,
}

-- The settings that `name` has after a call: a SIOCETHTOOL with ETHTOOL_SSET that does not fail
-- stores them.
abbrev pub settings_after : Call → Answer → Text → Settings → Settings
settings_after (ioctl_ethtool fd name' s) a name old =
    if (s.cmd == ethtool_sset) && (not (is_failed a.res) && same name' name) then s else old
settings_after _ a name old = old

-- What an argument asks of a setting: `-` leaves it, and a word stands for its value.
abbrev pub Asks : Text → List (String × ℕ) → ℕ → ℕ → Type 0
Asks arg [] old new = (arg ≡ codes "-") × (new ≡ old)
Asks arg ((word, v) ∷ words) old new = ((arg ≡ codes word) × (new ≡ v)) ⊎ Asks arg words old new

abbrev pub duplex_words : List (String × ℕ)
duplex_words = ("half", 0) ∷ ("full", 1) ∷ []

abbrev pub autoneg_words : List (String × ℕ)
autoneg_words = ("on", 1) ∷ ("off", 0) ∷ []

-- The speed that an argument asks for; -1 and `-` leave it.
abbrev pub speed_asked : (Text → ℤ) → Text → ℕ → ℕ
speed_asked atoi arg old =
    if same arg (codes "-") || is_failed (atoi arg) then old else u32_of (atoi arg)

abbrev pub SameLink : Settings → Settings → Type 0
SameLink s t =
    (s.speed ≡ t.speed) × (s.duplex ≡ t.duplex) × (s.autoneg ≡ t.autoneg) × (s.rest ≡ t.rest)

module _ (initial : Text → Settings) where
  unfoldable pub settings_of : Text → Trace → Settings
  settings_of name [] = initial name
  settings_of name ((c, a) ∷ tr) = settings_after c a name (settings_of name tr)

module _ (answer : Trace → Call → Answer) (initial : Text → Settings) where
  -- ETHTOOL_GSET finds the settings of the interface, and a call that fails sets `errno`.
  abbrev pub KeepsSettings : Type 0
  KeepsSettings =
      ((tr : Trace) (fd : ℤ) (name : Text) (s : Settings)
        → s.cmd ≡ ethtool_gset
        → SameLink (answer tr (ioctl_ethtool fd name s)).settings (settings_of initial name tr))
      × ((tr : Trace) (c : Call) → 1 ≤ (answer tr c).errno)

  -- The other interfaces keep their settings, and so does this one unless the result is 0, with
  -- which its settings are as `Done` says.
  abbrev pub Changes : (Settings → Settings → Type 0) → Text → Text → Trace → Trace × ℤ → Type 0
  Changes Done name other tr (tr', res) =
      (((res ≡ pos 0)
          × Done (settings_of initial (kernel_name name) tr)
              (settings_of initial (kernel_name name) tr'))
        ⊎ ((is_zero res ≡ false)
            × (settings_of initial (kernel_name name) tr'
                ≡ settings_of initial (kernel_name name) tr)))
      × ((settings_of initial other tr' ≡ settings_of initial other tr)
          ⊎ (other ≡ kernel_name name))

  module _ (stack : Settings) where
    link_configure_lem :
        KeepsSettings
        → (name other : Text) (s d a : ℤ) (tr : Trace)
        → Changes
            (λ old new. SameLink new (overwrite old s d a))
            name
            other
            tr
            (interface_link_configure answer stack name s d a tr)
    unfolding interface_link_configure net_open net_close get_settings put_settings overwrite call
        settings_of
    link_configure_lem (ks, he) name other s d a tr =
        let (tr1, opened) = net_open answer tr in
        let fd = opened.res in
        let get = ioctl_ethtool fd (kernel_name name) (record stack { cmd = ethtool_gset }) in
        let tr2 = call answer get tr1 in
        let put = ioctl_ethtool fd (kernel_name name) (overwrite (answer tr1 get).settings s d a) in
        ground (
          arith,
          ks tr1 fd (kernel_name name) (record stack { cmd = ethtool_gset }) refl,
          he tr (socket 2 2),
          he tr1 get,
          he tr2 put,
          same_refl (kernel_name name),
          eq_of_same (kernel_name name) other,
        )

duplex_arg-Asks :
    (arg : Text) (v : ℤ) (old : ℕ)
    → duplex_arg arg ≡ some v
    → Asks arg duplex_words old (if is_failed v then old else u8_of v)
unfolding duplex_arg is_changed
duplex_arg-Asks arg v old h = ground (
  arith,
  eq_of_same arg (codes "-"),
  eq_of_same arg (codes "half"),
  eq_of_same arg (codes "full"),
)

autoneg_arg-Asks :
    (arg : Text) (v : ℤ) (old : ℕ)
    → autoneg_arg arg ≡ some v
    → Asks arg autoneg_words old (if is_failed v then old else u8_of v)
unfolding autoneg_arg is_changed
autoneg_arg-Asks arg v old h =
    ground
      (arith, eq_of_same arg (codes "-"), eq_of_same arg (codes "on"), eq_of_same arg (codes "off"))

speed_arg-asked :
    (atoi : Text → ℤ) (arg : Text) (old : ℕ)
    → (if is_failed (speed_arg atoi arg) then old else u32_of (speed_arg atoi arg))
      ≡ speed_asked atoi arg old
unfolding speed_arg is_changed
speed_arg-asked atoi arg old = ground arith

-- What the arguments of `ethtool` ask of the settings.
abbrev pub AsAsked : (Text → ℤ) → Text → Text → Text → Settings → Settings → Type 0
AsAsked atoi s d a old new =
    (new.speed ≡ speed_asked atoi s old.speed)
    × Asks d duplex_words old.duplex new.duplex
    × Asks a autoneg_words old.autoneg new.autoneg
    × (new.rest ≡ old.rest)

module _ (answer : Trace → Call → Answer) (initial : Text → Settings) (stack : Settings) where
  args_lem :
      KeepsSettings answer initial
      → (atoi : Text → ℤ) (name other s d a : Text) (du au : Option ℤ) (tr : Trace)
      → duplex_arg d ≡ du
      → autoneg_arg a ≡ au
      → Changes answer initial
          (AsAsked atoi s d a)
          name
          other
          tr
          (link_configure_args answer stack name (speed_arg atoi s) du au tr)
  unfolding link_configure_args
  args_lem k atoi name other s d a none au tr ed ea = (inr (refl, refl), inl refl)
  args_lem k atoi name other s d a (some du) none tr ed ea = (inr (refl, refl), inl refl)
  args_lem k atoi name other s d a (some du) (some au) tr ed ea =
      let old = settings_of initial (kernel_name name) tr in
      ground (
        arith,
        link_configure_lem answer initial stack k name other (speed_arg atoi s) du au tr,
        duplex_arg-Asks d du old.duplex ed,
        autoneg_arg-Asks a au old.autoneg ea,
        speed_arg-asked atoi s old.speed,
      )

  -- On a kernel that keeps the settings of its links, and whose failed calls set `errno`: the command
  -- `ethtool <interface> <speed> <duplex> <autoneg>`, when its result is 0, has set what the arguments
  -- ask for (`-` leaves a setting, and so does a speed of -1), and left the rest of the settings as it
  -- was. With another result, as for a word that is not known, nothing is changed. The settings of
  -- another interface stay as they were.
  pub ethtool_refines :
      KeepsSettings answer initial
      → (atoi : Text → ℤ) (argv0 name other s d a : Text) (tr : Trace)
      → Changes answer initial
          (AsAsked atoi s d a)
          name
          other
          tr
          (ethtool_link_configure answer stack atoi (argv0 ∷ name ∷ s ∷ d ∷ a ∷ []) tr)
  unfolding ethtool_link_configure
  ethtool_refines k atoi argv0 name other s d a tr =
      args_lem k atoi name other s d a (duplex_arg d) (autoneg_arg a) tr refl refl
