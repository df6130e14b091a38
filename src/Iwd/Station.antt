-- ===== src/Iwd/Station.antt =====
-- internal/iwd/client.go: `handlePropertyChange`, `handleStationChange`, `handleDeviceChange` and
-- what a new connection starts.
pub mod Coherent
pub mod Stable
pub mod Transitions
pub mod Races
pub mod Safety
pub mod Examples
use x_network.Base.{
  ℕ, String, Bool, true, false, not, ◌&&◌, List, [], ◌∷◌, ◌++◌, Option, none, some, lookup, ◌=s=◌,
  if◌then◌else◌,
}
use x_network.Base.Outcome.{Outcome, ok, panic, ◌>>=◌}
use x_network.Variant.{Variant, Props, as_string, as_bool, as_path, when_present}
use x_network.State.{State, disconnected, connecting, connected, failed, same_state}
use x_network.Runtime.{
  Effect, go, usb_fallback, after_connected, World, state_of, act, modify, modify_or_panic,
}
use x_network.Portal.{Web, check_captive_portal}
use x_network.Iwd.Bus.{Bus, Value, Signal, station_iface, device_iface}
use x_network.Iwd.Client.{fetch_network_details, connected_network}
use x_network.Iwd.Networks.{refresh_networks}
use x_network.Iwd.Known.{refresh_known_networks}

-- A step of the closure: the state, and the goroutines started.
abbrev pub Stepped : Type 0
Stepped = State × List Effect

-- The first lines of the case "disconnected".
abbrev cleared : State → State
cleared st = record st {
  connection_state = disconnected;
  active_ssid = "";
  connecting_ssid = "";
  last_captive_check_ssid = "";
  captive_portal_detected = false;
  captive_portal_url = "";
}

abbrev fallback : State → List Effect
fallback st =
    if same_state st.connection_state connected
      && st.usb_tethering_available
      && not (st.usb_interface_name =s= "")
    then go (usb_fallback st.usb_interface_name) ∷ []
    else []

station_disconnected : State → Stepped
station_disconnected st = (
  if same_state st.connection_state connecting
      then record (cleared st) { last_error = "Authentication failed"; connection_state = failed }
      else cleared st,
  fallback st,
)

-- The switch on the station's new state.
unfoldable pub station_state : String → State → Stepped
unfolding station_disconnected
station_state text st =
    if text =s= "disconnected"
    then station_disconnected st
    else (if text =s= "connecting"
        then (record st { connection_state = connecting; last_error = "" }, [])
        else (if text =s= "connected"
            then (
              record st { connection_state = connected; connecting_ssid = ""; last_error = "" },
              [],
            )
            else (if text =s= "roaming"
                then (record st { connection_state = connected }, [])
                else (st, []))))

state_changed : Option Variant → State → Outcome Stepped
unfolding station_state
state_changed none st = ok (st, [])
state_changed (some v) st = as_string v >>= λ text. ok (station_state text st)

-- The closure of `handleStationChange`.
unfoldable pub station_change : Bus → String → Props → State → Outcome Stepped
unfolding state_changed when_present connected_network
station_change bus station props st = do
  (st, started) ← state_changed (lookup "State" props) st
  st ← when_present (lookup "Scanning" props) as_bool (λ v s. record s { wifi_scanning = v }) st
  st ← connected_network bus station (lookup "ConnectedNetwork" props) st
  ok (st, started)

scan_completed : Option Variant → Outcome Bool
scan_completed none = ok false
scan_completed (some v) = as_bool v >>= λ scanning. ok (not scanning)

refresh_if : Bool → Bus → String → World → Outcome World
refresh_if false bus station w = ok w
refresh_if true bus station w = refresh_networks bus station w

-- The last part: a new connection starts a goroutine, with the SSID of this moment.
connected_now : Option Variant → World → Outcome World
connected_now none w = ok w
connected_now (some v) w = as_string v >>= λ text.
    ok (if text =s= "connected" then act (go (after_connected (state_of w).active_ssid)) w else w)

-- iwd answers `during` while the closure runs, and `behind` afterwards.
unfoldable pub handle_station_change :
    (during behind : Bus) → String → Props → World → Outcome World
unfolding station_change scan_completed refresh_if refresh_networks connected_now
handle_station_change during behind station props w = do
  completed ← scan_completed (lookup "Scanning" props)
  w ← modify_or_panic (station_change during station props) w
  w ← refresh_if completed behind station w
  connected_now (lookup "State" props) w

unfoldable pub device_change : Props → State → Outcome State
unfolding when_present
device_change props st =
    when_present (lookup "Powered" props) as_bool (λ v s. record s { wifi_enabled = v }) st

unfoldable pub handle_device_change : Props → World → Outcome World
unfolding device_change
handle_device_change props w = modify_or_panic (λ st. device_change props st >>= λ s. ok (s, [])) w

changed : (during behind : Bus) → String → String → Props → World → Outcome World
changed during behind station iface props w =
    if iface =s= station_iface
    then handle_station_change during behind station props w
    else (if iface =s= device_iface then handle_device_change props w else ok w)

property_change : (during behind : Bus) → String → List Value → World → Outcome World
unfolding changed
property_change during behind station (Value.text iface ∷ Value.props ps ∷ _) w =
    changed during behind station iface ps w
property_change during behind station _ w = ok w

-- A round of the goroutine of `subscribeSignals`: a body of another form is ignored.
unfoldable pub handle_property_change :
    (during behind : Bus) → String → Signal → World → Outcome World
unfolding property_change
handle_property_change during behind station sig w =
    if sig.name =s= "org.freedesktop.DBus.Properties.PropertiesChanged"
    then property_change during behind station sig.body w
    else ok w

-- The goroutine of a new connection, up to its sleep: saved and available networks.
unfoldable pub after_connected_first : Bus → String → World → Outcome World
unfolding refresh_known_networks refresh_networks
after_connected_first bus station w =
    refresh_known_networks bus w >>= λ w'. refresh_networks bus station w'

-- The three guards, after the sleep.
abbrev pub portal_check_due : String → State → Bool
portal_check_due ssid st =
    same_state st.connection_state connected
    && st.active_ssid =s= ssid
    && not (st.last_captive_check_ssid =s= ssid)

-- The closure that stores the result of the check.
unfoldable pub store_portal : String → Bool × String → State → State
store_portal ssid (detected, url) st = record st {
  captive_portal_detected = detected;
  captive_portal_url = url;
  last_captive_check_ssid = ssid;
}

-- The guards read the state at one moment, and the result is stored at a later one: what other
-- goroutines do to the state in between is `meanwhile`.
unfoldable pub after_connected_second : Web → String → (meanwhile : World → World) → World → World
unfolding store_portal
after_connected_second web ssid meanwhile w =
    if portal_check_due ssid (state_of w)
    then modify (store_portal ssid (check_captive_portal web)) (meanwhile w)
    else w
