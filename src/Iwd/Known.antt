-- ===== src/Iwd/Known.antt =====
-- internal/iwd/client.go: the networks that iwd knows: `refreshKnownNetworks`,
-- `RefreshKnownNetworks`, `Forget` and `SetAutoConnect`.
pub mod Choice
use x_network.Base.{
  String, Bool, List, [], ◌∷◌, Option, none, some, lookup, ◌=s=◌, ◌<>◌, if◌then◌else◌,
}
use x_network.Base.Outcome.{Outcome, ok, ◌>>=◌}
use x_network.Variant.{Variant, boolean, string, Props, as_string}
use x_network.Runtime.{call, World, act, modify}
use x_network.Iwd.Bus.{Bus, Objects, known_network_iface, properties_set}
use x_network.Iwd.Client.Setup.{store_saved}

-- The name of a known network; `none` for an object that is none, or has no name.
abbrev pub name_in : Option Props → Option Variant
name_in none = none
name_in (some props) = lookup "Name" props

unfoldable pub known_names : Objects → Outcome (List String)
known_names [] = ok []
known_names ((path, ifaces) ∷ objects) =
    let rest = known_names objects in
    elim (name_in (lookup known_network_iface ifaces)) [
      | none ↦ rest
      | some v ↦ as_string v >>= λ ssid. rest >>= λ names. ok (ssid ∷ names)
    ]

-- An empty list is not stored.
unfoldable pub refresh_known_networks : Bus → World → Outcome World
unfolding known_names store_saved
refresh_known_networks bus w = elim bus.managed_objects [
  | none ↦ ok w
  | some objects ↦ known_names objects >>= λ names. ok (store_saved names w)
]

-- The exported `RefreshKnownNetworks` stores any list.
unfoldable pub refresh_after_forget : Bus → World → Outcome World
unfolding known_names
refresh_after_forget bus w = elim bus.managed_objects [
  | none ↦ ok w
  | some objects ↦
      known_names objects >>= λ names. ok (modify (λ st. record st { saved_networks = names }) w)
]

-- The loop that looks for a known network by its name: the path of the first object that fits.
-- A name that is no string panics, if the loop gets to it.
unfoldable pub find_known : String → Objects → Outcome (Option String)
find_known ssid [] = ok none
find_known ssid ((path, ifaces) ∷ objects) =
    let rest = find_known ssid objects in
    elim (name_in (lookup known_network_iface ifaces)) [
      | none ↦ rest
      | some v ↦ as_string v >>= λ name. if name =s= ssid then ok (some path) else rest
    ]

abbrev not_found : String → Option String
not_found ssid = some ("known network not found: " <> ssid)

-- A call to the object that was found, with its error.
unfoldable pub on_known :
    Bus → String → String → List Variant → World → Option String → World × Option String
on_known bus ssid method args w none = (w, not_found ssid)
on_known bus ssid method args w (some path) =
    (act (call path method args) w, bus.failure path method)

unfoldable pub with_known :
    Bus → String → String → List Variant → World → Outcome (World × Option String)
unfolding find_known on_known
with_known bus ssid method args w = elim bus.managed_objects [
  | none ↦ ok (w, some bus.managed_objects_error)
  | some objects ↦ find_known ssid objects >>= λ found. ok (on_known bus ssid method args w found)
]

unfoldable pub forget : Bus → String → World → Outcome (World × Option String)
unfolding with_known
forget bus ssid w = with_known bus ssid "net.connman.iwd.KnownNetwork.Forget" [] w

unfoldable pub set_auto_connect : Bus → String → Bool → World → Outcome (World × Option String)
unfolding with_known
set_auto_connect bus ssid enabled w =
    with_known bus ssid properties_set
      (string known_network_iface ∷ string "AutoConnect" ∷ boolean enabled ∷ []) w
