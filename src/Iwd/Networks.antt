-- ===== src/Iwd/Networks.antt =====
-- internal/iwd/client.go: `getNetworkInfo` and `fetchNetworksFromIWD`.
pub mod Coherent
pub mod Listing
pub mod Safety
use x_network.Base.{
  ℕ, String, Bool, true, false, not, ◌&&◌, List, [], ◌∷◌, Option, none, some, lookup, ◌=s=◌,
  if◌then◌else◌,
}
use x_network.Base.Int.{ℤ, quot}
use x_network.Base.Outcome.{Outcome, ok, panic, ◌>>=◌}
use x_network.Variant.{Variant, Props, as_string, as_bool, as_path, when_present}
use x_network.State.{State, Network}
use x_network.State.Signal.{dbm_to_percent}
use x_network.Runtime.{World, state_of, modify}
use x_network.Iwd.Bus.{Bus}

abbrev pub bare_network : String → ℤ → Network
bare_network path rssi = record {
  ssid = "";
  security = "";
  signal_dbm = quot rssi 100;
  signal = dbm_to_percent (quot rssi 100);
  connected = false;
  saved = false;
  frequency = 0;
  object_path = path;
}

unfoldable pub network_of_props : String → ℤ → Props → Outcome Network
unfolding when_present
network_of_props path rssi props = do
  net ←
      when_present (lookup "Name" props) as_string (λ v n. record n { ssid = v })
        (bare_network path rssi)
  net ← when_present (lookup "Type" props) as_string (λ v n. record n { security = v }) net
  net ← when_present (lookup "Connected" props) as_bool (λ v n. record n { connected = v }) net
  when_present (lookup "KnownNetwork" props) as_path (λ v n. record n { saved = not (v =s= "") })
      net

-- The state's network counts as connected, whatever iwd says of it.
abbrev pub mark_active : String → Network → Network
mark_active active net =
    if net.ssid =s= active && not (active =s= "") then record net { connected = true } else net

-- The loop of `fetchNetworksFromIWD`: a network whose properties cannot be read is left out.
unfoldable pub collect : Bus → String → List (String × ℤ) → Outcome (List Network)
unfolding network_of_props
collect bus active [] = ok []
collect bus active ((path, rssi) ∷ entries) =
    let rest = collect bus active entries in
    elim (bus.network_props path) [
      | none ↦ rest
      | some props ↦ network_of_props path rssi props >>= λ net.
          rest >>= λ nets. ok (mark_active active net ∷ nets)
    ]

-- `none` is the nil slice of a failed request.
unfoldable pub fetch_networks : Bus → String → State → Outcome (Option (List Network))
unfolding collect
fetch_networks bus station st = elim (bus.ordered_networks station) [
  | none ↦ ok none
  | some entries ↦ collect bus st.active_ssid entries >>= λ nets. ok (some nets)
]

-- `if networks != nil { Update }`
unfoldable pub store_networks : Option (List Network) → World → World
store_networks none w = w
store_networks (some nets) w = modify (λ st. record st { networks = nets }) w

-- The goroutine of `maybeInitIWD`, after its sleep.
unfoldable pub refresh_networks : Bus → String → World → Outcome World
unfolding fetch_networks store_networks
refresh_networks bus station w =
    fetch_networks bus station (state_of w) >>= λ nets. ok (store_networks nets w)
