-- ===== src/Iwd/Client.antt =====
-- internal/iwd/client.go: the client's fields, and how it reads iwd's objects into the state.
pub mod Coherent
pub mod Setup
use x_network.Base.{
  ℕ, String, Bool, true, false, List, [], ◌∷◌, Option, none, some, lookup, ◌=s=◌, if◌then◌else◌,
}
use x_network.Base.Int.{ℤ, quot}
use x_network.Base.Outcome.{Outcome, ok, panic, ◌>>=◌}
use x_network.Variant.{Variant, Props, as_string, as_bool, as_path, when_present}
use x_network.State.{State, ConnectionState, disconnected, connecting, connected}
use x_network.State.Signal.{dbm_to_percent}
use x_network.Iwd.Agent.{Agent}
use x_network.Iwd.Bus.{Bus}

pub record Client : Type 0 where
  pub device_path : String
  pub station_path : String
  pub initialized : Bool
  pub agent : Option Agent
  pub connect_id : ℕ  -- uint64

abbrev pub new_client : Client
new_client = record {
  device_path = "";
  station_path = "";
  initialized = false;
  agent = none;
  connect_id = 0;
}

-- The closure of `updateDeviceProps`.
unfoldable pub update_device_props : Props → State → Outcome State
unfolding when_present
update_device_props props st = do
  st ← when_present (lookup "Name" props) as_string (λ v s. record s { interface_name = v }) st
  st ← when_present (lookup "Address" props) as_string (λ v s. record s { mac_address = v }) st
  when_present (lookup "Powered" props) as_bool (λ v s. record s { wifi_enabled = v }) st

-- The loop of `fetchActiveSignal` over the ordered networks.
unfoldable pub active_signal : String → List (String × ℤ) → State → State
active_signal active [] st = st
active_signal active ((path, rssi) ∷ nets) st =
    let later = active_signal active nets st in
    if path =s= active
    then record st { signal_rssi = quot rssi 100; signal_strength = dbm_to_percent (quot rssi 100) }
    else later

unfoldable pub fetch_active_signal : Bus → String → String → State → State
unfolding active_signal
fetch_active_signal bus station active st = elim (bus.ordered_networks station) [
  | none ↦ st
  | some nets ↦ active_signal active nets st
]

details : Bus → String → String → Option Props → State → Outcome State
unfolding when_present fetch_active_signal
details bus station path none st = ok st
details bus station path (some props) st = do
  st ← when_present (lookup "Name" props) as_string (λ v s. record s { active_ssid = v }) st
  st ← when_present (lookup "Type" props) as_string (λ v s. record s { active_security = v }) st
  ok (fetch_active_signal bus station path st)

-- It runs inside an Update, on the state being changed.
unfoldable pub fetch_network_details : Bus → String → String → State → Outcome State
unfolding details
fetch_network_details bus station path st =
    if path =s= "" then ok st else details bus station path (bus.network_props path) st

-- The switch of `updateStationState`.
unfoldable pub initial_connection : String → ConnectionState → ConnectionState
initial_connection text before =
    if text =s= "disconnected"
    then disconnected
    else (if text =s= "connecting"
        then connecting
        else (if text =s= "connected"
            then connected
            else (if text =s= "roaming" then connected else before)))

unfoldable pub connected_network : Bus → String → Option Variant → State → Outcome State
unfolding fetch_network_details
connected_network bus station none st = ok st
connected_network bus station (some v) st =
    as_path v >>= λ path. fetch_network_details bus station path st

-- The closure of `updateStationState`.
unfoldable pub update_station_state : Bus → String → Props → State → Outcome State
unfolding when_present initial_connection connected_network
update_station_state bus station props st = do
  st ←
      when_present (lookup "State" props) as_string
        (λ v s. record s { connection_state = initial_connection v s.connection_state }) st
  st ← when_present (lookup "Scanning" props) as_bool (λ v s. record s { wifi_scanning = v }) st
  connected_network bus station (lookup "ConnectedNetwork" props) st
