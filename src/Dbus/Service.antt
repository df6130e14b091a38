-- ===== src/Dbus/Service.antt =====
-- internal/dbus/service.go: the service's start, its signals and its introspection data.
use x_network.Base.{String, Bool, true, false, List, [], ◌∷◌, Option, none, some, ◌<>◌}
use x_network.Variant.{
  Variant, boolean, string, object_path, int16, byte, uint32, uint64, string_array, network_array,
  Props,
}
use x_network.State.{State, text}
use x_network.State.Manager.{set_on_change}
use x_network.Runtime.{Effect, emit, properties_changed, close, service_bus, World, act}

-- `emitPropertiesChanged`
unfoldable pub changed_properties : State → Props
changed_properties st =
    ("WifiEnabled", boolean st.wifi_enabled)
    ∷ ("WifiScanning", boolean st.wifi_scanning)
    ∷ ("ConnectionState", string (text st.connection_state))
    ∷ ("ActiveSSID", string st.active_ssid)
    ∷ ("SignalRSSI", int16 st.signal_rssi)
    ∷ ("SignalStrength", byte st.signal_strength)
    ∷ ("IpAddress", string st.ip_address)
    ∷ ("Gateway", string st.gateway)
    ∷ ("TrafficIn", uint64 st.traffic_in)
    ∷ ("TrafficOut", uint64 st.traffic_out)
    ∷ ("AirplaneMode", boolean st.airplane_mode)
    ∷ ("CaptivePortalDetected", boolean st.captive_portal_detected)
    ∷ ("HotspotActive", boolean st.hotspot_active)
    ∷ []

-- The callback that the manager gets: it tries to emit the signal. The effect is the attempt,
-- since an error of it is only logged.
unfoldable pub on_state_change : State → Effect
unfolding changed_properties
on_state_change st = properties_changed (changed_properties st)

unfoldable pub emit_signal : String → List Variant → World → World
emit_signal name values w = act (emit name values) w

-- What `NewService` asks of the bus: each step's error, and whether the name is ours.
pub record Registration : Type 0 where
  pub connect : Option String
  pub request_name : Option String
  pub primary_owner : Bool
  pub export_service : Option String
  pub export_properties : Option String

-- `Close`, and what `NewService` does before it returns an error.
unfoldable pub dropped : World → World
dropped w = act (close service_bus) w

-- The error, if the service cannot be started; only at the end is the callback set.
unfoldable pub new_service : Registration → World → World × Option String
unfolding on_state_change set_on_change dropped
new_service r w = elim r.connect [
  | some e ↦ (w, some ("failed to connect to D-Bus: " <> e))
  | none ↦ elim r.request_name [
    | some e ↦ (dropped w, some ("failed to request name: " <> e))
    | none ↦ elim r.primary_owner [
      | false ↦ (dropped w, some "name already taken")
      | true ↦ elim r.export_service [
        | some e ↦ (dropped w, some ("failed to export: " <> e))
        | none ↦ elim r.export_properties [
          | some e ↦ (dropped w, some ("failed to export properties: " <> e))
          | none ↦ (record w { manager = set_on_change on_state_change w.manager }, none)
        ]
      ]
    ]
  ]
]

pub data Direction : Type 0 where
  in_arg out_arg : Direction

pub record Arg : Type 0 where
  pub name : String
  pub type_code : String
  pub direction : Direction

pub record Method : Type 0 where
  pub name : String
  pub args : List Arg

abbrev takes : String → String → Arg
takes name code = record { name = name; type_code = code; direction = in_arg }

abbrev gives : String → String → Arg
gives name code = record { name = name; type_code = code; direction = out_arg }

abbrev method : String → List Arg → Method
method name args = record { name = name; args = args }

unfoldable pub methods : List Method
methods =
    method "EnableWifi" (takes "enabled" "b" ∷ gives "success" "b" ∷ [])
    ∷ method "Scan" []
    ∷ method "Connect" (takes "params" "a{sv}" ∷ gives "success" "b" ∷ [])
    ∷ method "ConnectSaved" (takes "ssid" "s" ∷ gives "success" "b" ∷ [])
    ∷ method "Disconnect" []
    ∷ method "Forget" (takes "ssid" "s" ∷ gives "success" "b" ∷ [])
    ∷ method "SetAutoConnect" (takes "ssid" "s" ∷ takes "enabled" "b" ∷ gives "success" "b" ∷ [])
    ∷ method "StartHotspot" (takes "ssid" "s" ∷ takes "password" "s" ∷ gives "success" "b" ∷ [])
    ∷ method "StopHotspot" []
    ∷ method "SetAirplaneMode" (takes "enabled" "b" ∷ gives "success" "b" ∷ [])
    ∷ method "CheckCaptivePortal" (gives "detected" "b" ∷ [])
    ∷ method "OpenCaptivePortal" []
    ∷ method "RequestUsbNetwork" (gives "success" "b" ∷ [])
    ∷ method "ReleaseUsbNetwork" []
    ∷ []

-- Name and type of each property; all are read-only.
unfoldable pub properties : List (String × String)
properties =
    ("WifiEnabled", "b")
    ∷ ("WifiScanning", "b")
    ∷ ("ConnectionState", "s")
    ∷ ("ActiveSSID", "s")
    ∷ ("ActiveSecurity", "s")
    ∷ ("SignalRSSI", "n")
    ∷ ("SignalStrength", "y")
    ∷ ("Frequency", "u")
    ∷ ("IpAddress", "s")
    ∷ ("Gateway", "s")
    ∷ ("MacAddress", "s")
    ∷ ("InterfaceName", "s")
    ∷ ("TrafficIn", "t")
    ∷ ("TrafficOut", "t")
    ∷ ("Networks", "a(ssybu)")
    ∷ ("SavedNetworks", "as")
    ∷ ("AirplaneMode", "b")
    ∷ ("CaptivePortalDetected", "b")
    ∷ ("HotspotActive", "b")
    ∷ ("ConnectionType", "s")
    ∷ ("Band", "s")
    ∷ ("UsbInterfaceDetected", "b")
    ∷ ("UsbTetheringAvailable", "b")
    ∷ ("UsbTetheringConnected", "b")
    ∷ ("UsbInterfaceName", "s")
    ∷ []

-- Name of each signal, with the names and types of its values.
unfoldable pub signals : List (String × List (String × String))
signals =
    ("WifiStateChanged", ("enabled", "b") ∷ [])
    ∷ ("ScanStarted", [])
    ∷ ("ScanCompleted", [])
    ∷ ("NetworksChanged", ("networks", "a(ssybu)") ∷ [])
    ∷ ("ConnectionChanged", ("state", "s") ∷ ("ssid", "s") ∷ ("signal", "y") ∷ [])
    ∷ ("TrafficUpdated", ("inBytes", "t") ∷ ("outBytes", "t") ∷ [])
    ∷ ("AddressChanged", ("ip", "s") ∷ ("gateway", "s") ∷ [])
    ∷ ("InterfaceChanged", ("iface", "s") ∷ ("isUp", "b") ∷ [])
    ∷ ("CaptivePortalStatus", ("detected", "b") ∷ ("url", "s") ∷ [])
    ∷ ("Error", ("operation", "s") ∷ ("message", "s") ∷ [])
    ∷ []

-- The D-Bus type of a value.
abbrev pub signature : Variant → String
signature (boolean _) = "b"
signature (string _) = "s"
signature (object_path _) = "o"
signature (int16 _) = "n"
signature (byte _) = "y"
signature (uint32 _) = "u"
signature (uint64 _) = "t"
signature (string_array _) = "as"
signature (network_array _) = "a(ssybu)"
