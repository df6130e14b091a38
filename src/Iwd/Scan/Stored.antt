-- ===== src/Iwd/Scan/Stored.antt =====
-- internal/iwd/client.go: what `Scan` returns, and what it leaves in the state.
use x_network.Base.{◌≡◌, refl, ◌≢◌, ◌⊎◌, String, List, [], Option, none, some}
use x_network.Base.Outcome.{Outcome}
use x_network.State.{Network}
use x_network.Runtime.{call, World, state_of, act, modify}
use x_network.Iwd.Bus.{Bus}
use x_network.Iwd.Networks.{store_networks}

-- The networks that were there before stay if none were brought.
abbrev pub IsStored : World → Option (List Network) → World → Type 0
IsStored before none w = w ≡ before
IsStored before (some nets) w = (state_of w).networks ≡ nets

store_networks-IsStored :
    (nets : Option (List Network)) (w : World) → IsStored w nets (store_networks nets w)
unfolding store_networks modify
store_networks-IsStored none w = refl
store_networks-IsStored (some nets) w = refl

-- The world while `Scan` waits: the scan was asked for, and its signals subscribed.
abbrev pub asked : String → World → World
asked station w =
    act (call "org.freedesktop.DBus" "AddMatch scan" [])
      (act (call station "net.connman.iwd.Station.Scan" []) w)

-- How `Scan` ends: it was refused and changed nothing, or it returns what the state now has.
abbrev pub IsScanned : World → World → World → Option (List Network) → Option String → Type 0
IsScanned before waited w' nets err =
    ((err ≡ none) × IsStored waited nets w')
    ⊎ ((err ≢ none) × (nets ≡ none) × (w'.manager ≡ before.manager))
