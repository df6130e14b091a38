-- ===== src/State.antt =====
-- internal/state/state.go: the data that the whole daemon shares.
pub mod Signal
pub mod Manager
pub mod Delivery
pub mod Coherent
pub mod Examples
use x_network.Base.{ℕ, String, Bool, true, false, List, []}
use x_network.Base.Int.{ℤ, pos}

pub data ConnectionState : Type 0 where
  disconnected connecting obtaining connected failed : ConnectionState

-- The string constants behind the type.
unfoldable pub text : ConnectionState → String
text disconnected = "disconnected"
text connecting = "connecting"
text obtaining = "obtaining"
text connected = "connected"
text failed = "failed"

-- `==` on the type.
abbrev pub same_state : ConnectionState → ConnectionState → Bool
same_state disconnected disconnected = true
same_state connecting connecting = true
same_state obtaining obtaining = true
same_state connected connected = true
same_state failed failed = true
same_state _ _ = false

pub record Network : Type 0 where
  pub ssid : String
  pub security : String
  pub signal_dbm : ℤ  -- int16
  pub signal : ℕ  -- uint8
  pub connected : Bool
  pub saved : Bool
  pub frequency : ℕ  -- uint32
  pub object_path : String

pub record State : Type 0 where
  pub wifi_enabled : Bool
  pub wifi_scanning : Bool
  pub connection_state : ConnectionState
  pub active_ssid : String
  pub connecting_ssid : String
  pub active_security : String
  pub signal_rssi : ℤ  -- int16
  pub signal_strength : ℕ  -- uint8
  pub frequency : ℕ  -- uint32
  pub interface_name : String
  pub mac_address : String
  pub ip_address : String
  pub gateway : String
  pub traffic_in : ℕ  -- uint64
  pub traffic_out : ℕ  -- uint64
  pub networks : List Network
  pub saved_networks : List String
  pub airplane_mode : Bool
  pub captive_portal_detected : Bool
  pub captive_portal_url : String
  pub last_captive_check_ssid : String
  pub hotspot_active : Bool
  pub hotspot_ssid : String
  pub connection_type : String
  pub usb_interface_detected : Bool
  pub usb_tethering_available : Bool
  pub usb_tethering_connected : Bool
  pub usb_interface_name : String
  pub usb_interface_index : ℕ  -- uint32
  pub last_error : String
  pub was_resumed : Bool
  pub resume_timestamp : ℕ  -- nanoseconds on the monotonic clock
  pub weather_triggered : Bool
  pub is_startup : Bool

-- The state of `NewManager`: zero values but for the connection state.
abbrev pub initial : State
initial = record {
  wifi_enabled = false;
  wifi_scanning = false;
  connection_state = disconnected;
  active_ssid = "";
  connecting_ssid = "";
  active_security = "";
  signal_rssi = pos 0;
  signal_strength = 0;
  frequency = 0;
  interface_name = "";
  mac_address = "";
  ip_address = "";
  gateway = "";
  traffic_in = 0;
  traffic_out = 0;
  networks = [];
  saved_networks = [];
  airplane_mode = false;
  captive_portal_detected = false;
  captive_portal_url = "";
  last_captive_check_ssid = "";
  hotspot_active = false;
  hotspot_ssid = "";
  connection_type = "";
  usb_interface_detected = false;
  usb_tethering_available = false;
  usb_tethering_connected = false;
  usb_interface_name = "";
  usb_interface_index = 0;
  last_error = "";
  was_resumed = false;
  resume_timestamp = 0;
  weather_triggered = false;
  is_startup = false;
}
