-- ===== src/Iwd/Bus.antt =====
-- What internal/iwd meets on the system bus: the answers of iwd, and the signals.
use x_network.Base.{String, Bool, List, Option}
use x_network.Base.Int.{ℤ}
use x_network.Variant.{Props}

-- map[dbus.ObjectPath]map[string]map[string]dbus.Variant, in the order in which the map is
-- walked: Go leaves that open.
abbrev pub Interfaces : Type 0
Interfaces = List (String × Props)

abbrev pub Objects : Type 0
Objects = List (String × Interfaces)

-- What iwd answers at one moment. `none` is a failed request, but of `failure`, which gives a
-- call's error: there `none` is success.
pub record Bus : Type 0 where
  pub managed_objects : Option Objects
  pub managed_objects_error : String  -- of a failed request for them
  -- Properties.GetAll of the Network interface, by object.
  pub network_props : String → Option Props
  -- GetOrderedNetworks, by station: paths with their signal in 1/100 dBm.
  pub ordered_networks : String → Option (List (String × ℤ))
  pub failure : (object method : String) → Option String

-- The element types that the signal handlers ask for.
pub data Value : Type 0 where
  text : String → Value
  props : Props → Value
  interfaces : Interfaces → Value
  flag : Bool → Value
  other : Value

pub record Signal : Type 0 where
  pub name : String
  pub path : String
  pub body : List Value

abbrev pub station_iface : String
station_iface = "net.connman.iwd.Station"

abbrev pub device_iface : String
device_iface = "net.connman.iwd.Device"

abbrev pub network_iface : String
network_iface = "net.connman.iwd.Network"

abbrev pub known_network_iface : String
known_network_iface = "net.connman.iwd.KnownNetwork"

abbrev pub access_point_iface : String
access_point_iface = "net.connman.iwd.AccessPoint"

abbrev pub properties_set : String
properties_set = "org.freedesktop.DBus.Properties.Set"
