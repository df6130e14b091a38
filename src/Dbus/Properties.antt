-- ===== src/Dbus/Properties.antt =====
-- internal/dbus/properties.go: the properties that clients read.
use Prim.Native.String
use x_network.Base.{
  ◌≡◌, refl, ap, ◌∙◌, String, Bool, true, false, List, [], ◌∷◌, Option, none, some, lookup, ◌=s=◌,
  if◌then◌else◌,
}
use x_network.Variant.{
  NetworkDbus, Variant, boolean, string, int16, byte, uint32, uint64, string_array, network_array,
  Props, Reply, returns, fails,
}
use x_network.State.{State, Network, text}
use x_network.State.Signal.{frequency_to_band}

abbrev pub interface : String
interface = "org.xshell.Network"

unfoldable pub network_to_dbus : Network → NetworkDbus
network_to_dbus n = record {
  ssid = n.ssid;
  security = n.security;
  signal = n.signal;
  connected = n.connected;
  frequency = n.frequency;
}

unfoldable pub networks_to_dbus : List Network → List NetworkDbus
unfolding network_to_dbus
networks_to_dbus [] = []
networks_to_dbus (n ∷ nets) = network_to_dbus n ∷ networks_to_dbus nets

-- The switch of `Get`; `none` is its default.
unfoldable pub property : State → String → Option Variant
property st name =
    if "WifiEnabled" =s= name
    then some (boolean st.wifi_enabled)
    else (if "WifiScanning" =s= name
        then some (boolean st.wifi_scanning)
        else (if "ConnectionState" =s= name
            then some (string (text st.connection_state))
            else (if "ActiveSSID" =s= name
                then some (string st.active_ssid)
                else (if "ConnectingSSID" =s= name
                    then some (string st.connecting_ssid)
                    else (if "ActiveSecurity" =s= name
                        then some (string st.active_security)
                        else (if "SignalRSSI" =s= name
                            then some (int16 st.signal_rssi)
                            else (if "SignalStrength" =s= name
                                then some (byte st.signal_strength)
                                else (if "Frequency" =s= name
                                    then some (uint32 st.frequency)
                                    else (if "IpAddress" =s= name
                                        then some (string st.ip_address)
                                        else (if "Gateway" =s= name
                                            then some (string st.gateway)
                                            else (if "MacAddress" =s= name
                                                then some (string st.mac_address)
                                                else (if "InterfaceName" =s= name
                                                    then some (string st.interface_name)
                                                    else (if "TrafficIn" =s= name
                                                        then some (uint64 st.traffic_in)
                                                        else (if "TrafficOut" =s= name
                                                            then some (uint64 st.traffic_out)
                                                            else (if "Networks" =s= name
                                                            then some (
                                                            network_array
                                                            (networks_to_dbus st.networks))
                                                            else (if "SavedNetworks" =s= name
                                                            then some
                                                            (string_array st.saved_networks)
                                                            else (if "AirplaneMode" =s= name
                                                            then some (boolean st.airplane_mode)
                                                            else (if "CaptivePortalDetected"
                                                            =s= name
                                                            then some
                                                            (boolean st.captive_portal_detected)
                                                            else (if "HotspotActive" =s= name
                                                            then some (boolean st.hotspot_active)
                                                            else (if "ConnectionType" =s= name
                                                            then some (string st.connection_type)
                                                            else (if "Band" =s= name
                                                            then some (
                                                            string (frequency_to_band st.frequency))
                                                            else (if "UsbInterfaceDetected" =s= name
                                                            then some
                                                            (boolean st.usb_interface_detected)
                                                            else (if "UsbTetheringAvailable"
                                                            =s= name
                                                            then some
                                                            (boolean st.usb_tethering_available)
                                                            else (if "UsbTetheringConnected"
                                                            =s= name
                                                            then some
                                                            (boolean st.usb_tethering_connected)
                                                            else (if "UsbInterfaceName" =s= name
                                                            then some (string st.usb_interface_name)
                                                            else (if "LastError" =s= name
                                                            then some (string st.last_error)
                                                            else none))))))))))))))))))))))))))

abbrev pub unknown_interface : {A : Type 0} → Reply A
unknown_interface =
    fails (record {
      name = "org.freedesktop.DBus.Error.UnknownInterface";
      message = "Unknown interface";
    })

abbrev pub unknown_property : String → Reply Variant
unknown_property name = fails (record {
  name = "org.freedesktop.DBus.Error.UnknownProperty";
  message = String.◌++◌ "Unknown property: " name;
})

answer_property : String → Option Variant → Reply Variant
answer_property name none = unknown_property name
answer_property name (some v) = returns v

unfoldable pub get : State → (iface name : String) → Reply Variant
unfolding answer_property
get st iface name =
    if iface =s= interface then answer_property name (property st name) else unknown_interface

-- The map of `GetAll`.
unfoldable pub all_properties : State → Props
all_properties st =
    ("WifiEnabled", boolean st.wifi_enabled)
    ∷ ("WifiScanning", boolean st.wifi_scanning)
    ∷ ("ConnectionState", string (text st.connection_state))
    ∷ ("ActiveSSID", string st.active_ssid)
    ∷ ("ConnectingSSID", string st.connecting_ssid)
    ∷ ("ActiveSecurity", string st.active_security)
    ∷ ("SignalRSSI", int16 st.signal_rssi)
    ∷ ("SignalStrength", byte st.signal_strength)
    ∷ ("Frequency", uint32 st.frequency)
    ∷ ("IpAddress", string st.ip_address)
    ∷ ("Gateway", string st.gateway)
    ∷ ("MacAddress", string st.mac_address)
    ∷ ("InterfaceName", string st.interface_name)
    ∷ ("TrafficIn", uint64 st.traffic_in)
    ∷ ("TrafficOut", uint64 st.traffic_out)
    ∷ ("Networks", network_array (networks_to_dbus st.networks))
    ∷ ("SavedNetworks", string_array st.saved_networks)
    ∷ ("AirplaneMode", boolean st.airplane_mode)
    ∷ ("CaptivePortalDetected", boolean st.captive_portal_detected)
    ∷ ("HotspotActive", boolean st.hotspot_active)
    ∷ ("ConnectionType", string st.connection_type)
    ∷ ("Band", string (frequency_to_band st.frequency))
    ∷ ("UsbInterfaceDetected", boolean st.usb_interface_detected)
    ∷ ("UsbTetheringAvailable", boolean st.usb_tethering_available)
    ∷ ("UsbTetheringConnected", boolean st.usb_tethering_connected)
    ∷ ("UsbInterfaceName", string st.usb_interface_name)
    ∷ ("LastError", string st.last_error)
    ∷ []

unfoldable pub get_all : State → (iface : String) → Reply Props
get_all st iface = if iface =s= interface then returns (all_properties st) else unknown_interface

unfoldable pub set : (iface name : String) → Variant → Reply (Unit {0})
set iface name value = fails (record {
  name = "org.freedesktop.DBus.Error.PropertyReadOnly";
  message = "Properties are read-only";
})

property-lookup : (st : State) (name : String) → property st name ≡ lookup name (all_properties st)
unfolding property all_properties lookup
property-lookup st name = refl

-- Get, derived from the answer of GetAll.
abbrev pub get_of : String → Reply Props → Reply Variant
get_of name (fails e) = fails e
get_of name (returns props) = elim (lookup name props) [
  | none ↦ unknown_property name
  | some v ↦ returns v
]

answer_property-elim :
    (name : String) (o : Option Variant)
    → answer_property name o ≡ elim o [ none ↦ unknown_property name | some v ↦ returns v ]
unfolding answer_property
answer_property-elim name none = refl
answer_property-elim name (some v) = refl

get-get_of :
    (b : Bool) (st : State) (name : String)
    → (if b then answer_property name (property st name) else unknown_interface)
      ≡ get_of name (if b then returns (all_properties st) else unknown_interface)
get-get_of true st name =
    ap (answer_property name) (property-lookup st name) ∙ answer_property-elim name _
get-get_of false st name = refl

-- Get and GetAll agree, on every interface and every name, the unknown ones included.
pub get-get_all :
    (st : State) (iface name : String) → get st iface name ≡ get_of name (get_all st iface)
unfolding get get_all
get-get_all st iface name = get-get_of (iface =s= interface) st name
