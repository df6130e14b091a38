-- ===== src/Iwd/Networks/Coherent.antt =====
-- internal/iwd/client.go: the networks that are listed, and storing them, keep the state coherent.
use x_network.Base.{◌≡◌, String, List, [], ◌∷◌, Option, none, some, All, arith}
use x_network.Base.Int.{ℤ}
use x_network.Base.Outcome.{ok}
use x_network.Variant.{Props, as_string, as_bool, as_path, when_present}
use x_network.State.{State, Network}
use x_network.State.Signal.{dbm_to_percent_le}
use x_network.State.Coherent.{IsShown, IsCoherent}
use x_network.Runtime.{World, state_of, modify}
use x_network.Iwd.Bus.{Bus}
use x_network.Iwd.Networks.{
  network_of_props, collect, fetch_networks, store_networks, refresh_networks,
}

network_of_props-IsShown :
    (path : String) (rssi : ℤ) (ps : Props) (net : Network)
    → network_of_props path rssi ps ≡ ok net
    → IsShown net
unfolding network_of_props when_present as_string as_bool as_path
network_of_props-IsShown path rssi ps net e = grind (arith, dbm_to_percent_le)

collect-IsShown :
    (bus : Bus) (active : String) (entries : List (String × ℤ)) (nets : List Network)
    → collect bus active entries ≡ ok nets
    → All IsShown nets
unfolding collect
collect-IsShown bus active [] nets e = ground arith
collect-IsShown bus active ((path, rssi) ∷ entries) nets e =
    grind (arith, network_of_props-IsShown, collect-IsShown bus active entries)

-- What a failed request brings counts as coherent.
abbrev pub AreShown : Option (List Network) → Type 0
AreShown none = Unit
AreShown (some nets) = All IsShown nets

pub fetch_networks-AreShown :
    (bus : Bus) (station : String) (st : State) (nets : Option (List Network))
    → fetch_networks bus station st ≡ ok nets
    → AreShown nets
unfolding fetch_networks
fetch_networks-AreShown bus station st nets e = grind (arith, collect-IsShown)

pub store_networks-IsCoherent :
    (nets : Option (List Network)) (w : World)
    → AreShown nets
    → IsCoherent (state_of w)
    → IsCoherent (state_of (store_networks nets w))
unfolding store_networks modify
store_networks-IsCoherent nets w shown v = ground arith

pub refresh_networks-IsCoherent :
    (bus : Bus) (station : String) (w w' : World)
    → refresh_networks bus station w ≡ ok w'
    → IsCoherent (state_of w)
    → IsCoherent (state_of w')
unfolding refresh_networks
refresh_networks-IsCoherent bus station w w' e v =
    grind (arith, fetch_networks-AreShown, store_networks-IsCoherent)
