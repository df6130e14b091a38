-- ===== src/Dbus/Announced.antt =====
-- internal/dbus: what clients are told of, against what they can read.
use x_network.Base.{◌≡◌, refl, String, Bool, List, Option, none, some, lookup, All, arith}
use x_network.Variant.{Variant}
use x_network.State.{State, Network}
use x_network.Dbus.Properties.{all_properties}
use x_network.Dbus.Service.{changed_properties, on_state_change, properties, signature}

abbrev pub type_of : Option Variant → Option String
type_of none = none
type_of (some v) = some (signature v)

abbrev pub IsServed : State → String × String → Type 0
IsServed st (name, code) = type_of (lookup name (all_properties st)) ≡ some code

-- In every state each property of the introspection data can be read, with a value of the type
-- that is given there.
pub properties-IsServed : (st : State) → All (IsServed st) properties
unfolding all_properties properties lookup
properties-IsServed st = ground arith

abbrev pub IsCurrent : State → String × Variant → Type 0
IsCurrent st (name, v) = lookup name (all_properties st) ≡ some v

-- Every value of a PropertiesChanged signal is the one that a client would read in the state
-- that the signal tells of.
pub changed_properties-IsCurrent : (st : State) → All (IsCurrent st) (changed_properties st)
unfolding all_properties changed_properties lookup
changed_properties-IsCurrent st = ground arith

-- The signal does not tell of the network lists, of the SSID being connected, of the last error,
-- of the interface or of the USB fields: whatever they change to, it is the same signal.
pub on_state_change_silent :
    (st : State) (nets : List Network) (saved : List String) (ssid err iface kind usb : String)
    (detected available connected : Bool)
    → on_state_change (record st {
      networks = nets;
      saved_networks = saved;
      connecting_ssid = ssid;
      last_error = err;
      interface_name = iface;
      connection_type = kind;
      usb_interface_detected = detected;
      usb_tethering_available = available;
      usb_tethering_connected = connected;
      usb_interface_name = usb;
    })
      ≡ on_state_change st
unfolding on_state_change
on_state_change_silent st nets saved ssid err iface kind usb detected available connected = refl
