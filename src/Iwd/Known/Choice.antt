-- ===== src/Iwd/Known/Choice.antt =====
-- internal/iwd/client.go: which object `Forget` and `SetAutoConnect` call, in a map of objects that
-- Go walks in any order.
use x_network.Base.{
  ◌≡◌, ◌≢◌, ◌⊎◌, inl, inr, refl, String, Bool, List, [], ◌∷◌, Option, none, some, lookup, All, Any,
  arith, eq_iff,
}
use x_network.Base.Outcome.{ok}
use x_network.Variant.{Variant, boolean, string, as_string}
use x_network.Runtime.{call, World, act}
use x_network.Iwd.Bus.{Bus, Interfaces, Objects, known_network_iface, properties_set}
use x_network.Iwd.Known.{name_in, find_known, not_found, forget, set_auto_connect}

abbrev pub name_of : String × Interfaces → Option Variant
name_of (path, ifaces) = name_in (lookup known_network_iface ifaces)

-- A known network has a name, if it has one, that is a text.
abbrev pub HasText : String × Interfaces → Type 0
HasText object = (name_of object ≡ none) ⊎ ((name : String) × (name_of object ≡ some (string name)))

-- The object at the path is the known network with this name.
abbrev pub IsKnownAs : String → String → String × Interfaces → Type 0
IsKnownAs ssid path object = (object.0 ≡ path) × (name_of object ≡ some (string ssid))

-- No other object than that at the path has the name.
abbrev pub IsNoOther : String → String → String × Interfaces → Type 0
IsNoOther ssid path object = (object.0 ≡ path) ⊎ (name_of object ≢ some (string ssid))

find_known_only :
    (ssid path : String) (objects : Objects)
    → All HasText objects
    → Any (IsKnownAs ssid path) objects
    → All (IsNoOther ssid path) objects
    → find_known ssid objects ≡ ok (some path)
unfolding find_known as_string
find_known_only ssid path [] typed there only = absurd there
find_known_only ssid path ((p, ifaces) ∷ objects) (inl unnamed, typed) there (other, only) =
    let later =
      λ (h : Any (IsKnownAs ssid path) objects). find_known_only ssid path objects typed h only in
    ground arith
find_known_only ssid path ((p, ifaces) ∷ objects) (inr (name, text), typed) there (other, only) =
    let later =
      λ (h : Any (IsKnownAs ssid path) objects). find_known_only ssid path objects typed h only in
    ground (arith, eq_iff name ssid)

abbrev pub forget_method : String
forget_method = "net.connman.iwd.KnownNetwork.Forget"

abbrev pub auto_connect_args : Bool → List Variant
auto_connect_args enabled = string known_network_iface ∷ string "AutoConnect" ∷ boolean enabled ∷ []

-- While one object of iwd alone is the known network with the SSID, in whatever order the objects
-- are walked, Forget and SetAutoConnect each make one call, to that object, and return its error.
pub forget_only :
    (bus : Bus) (ssid path : String) (enabled : Bool) (objects : Objects) (w : World)
    → bus.managed_objects ≡ some objects
    → All HasText objects
    → Any (IsKnownAs ssid path) objects
    → All (IsNoOther ssid path) objects
    → (forget bus ssid w ≡ ok (act (call path forget_method []) w, bus.failure path forget_method))
      × (set_auto_connect bus ssid enabled w
          ≡ ok (
            act (call path properties_set (auto_connect_args enabled)) w,
            bus.failure path properties_set,
          ))
unfolding forget set_auto_connect
forget_only bus ssid path enabled objects w e typed there only =
    let found = find_known_only ssid path objects typed there only in ground arith

find_known_absent :
    (ssid : String) (objects : Objects)
    → All HasText objects
    → All (λ o. name_of o ≢ some (string ssid)) objects
    → find_known ssid objects ≡ ok none
unfolding find_known as_string
find_known_absent ssid [] typed absent = refl
find_known_absent ssid ((p, ifaces) ∷ objects) (inl unnamed, typed) (other, absent) =
    let later = find_known_absent ssid objects typed absent in ground arith
find_known_absent ssid ((p, ifaces) ∷ objects) (inr (name, text), typed) (other, absent) =
    let later = find_known_absent ssid objects typed absent in ground (arith, eq_iff name ssid)

-- While no object has the name, neither calls anything: both return that it is not found.
pub forget_absent :
    (bus : Bus) (ssid : String) (enabled : Bool) (objects : Objects) (w : World)
    → bus.managed_objects ≡ some objects
    → All HasText objects
    → All (λ o. name_of o ≢ some (string ssid)) objects
    → (forget bus ssid w ≡ ok (w, not_found ssid))
      × (set_auto_connect bus ssid enabled w ≡ ok (w, not_found ssid))
unfolding forget set_auto_connect
forget_absent bus ssid enabled objects w e typed absent =
    let found = find_known_absent ssid objects typed absent in ground arith
