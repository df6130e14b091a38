-- ===== src/Dbus/Steps.antt =====
-- internal/dbus: the service as a step relation: any method, or the end of any goroutine that a
-- method started. A method makes its calls before its one Update, and they change no state, so
-- that it stands here as one step, at its Update.
use mathlib.Core.Path.{subst}
use x_network.Base.{◌≡◌, sym, String, Bool, List, Option, arith}
use x_network.Base.Outcome.{ok}
use x_network.Variant.{Props, Reply}
use x_network.State.{State, Network}
use x_network.State.Coherent.{IsCoherent}
use x_network.Runtime.{World, Shell, state_of, modify}
use x_network.Portal.{Web}
use x_network.Iwd.Bus.{Bus}
use x_network.Iwd.Client.{Client}
use x_network.Iwd.Networks.{fetch_networks}
use x_network.Iwd.Networks.Coherent.{fetch_networks-AreShown, AreShown}
use x_network.Dbus.Helpers.{Installed}
use x_network.Dbus.Methods.{
  enable_wifi, scan, connect, connect_saved, disconnect, forget, set_auto_connect, start_hotspot,
  stop_hotspot, set_airplane_mode, check_portal, open_captive_portal, request_usb_network,
  release_usb_network,
}
use x_network.Dbus.Tasks.{
  service_scan_ends, service_connect_ends, service_connect_saved_ends, run_request_usb, released,
}
use x_network.Dbus.Coherent.{
  enable_wifi-IsCoherent, scan-IsCoherent, connect-IsCoherent, connect_saved-IsCoherent,
  disconnect-IsCoherent, forget-IsCoherent, set_auto_connect_same, start_hotspot-IsCoherent,
  stop_hotspot-IsCoherent, set_airplane_mode-IsCoherent, check_portal-IsCoherent,
}

-- A method that is called, with the client of that moment.
pub data MethodStep (c : Option Client) (w : World) : World → Type 0 where
  enables_wifi : (bus : Bus) (enabled : Bool) → MethodStep c w (enable_wifi bus c enabled w).0
  scans : MethodStep c w (scan c w).0
  connects :
      (params : Props) (w' : World) (r : Reply Bool)
      → connect c params w ≡ ok (w', r)
      → MethodStep c w w'
  connects_saved : (ssid : String) → MethodStep c w (connect_saved c ssid w).0
  disconnects : (bus : Bus) → MethodStep c w (disconnect bus c w).0
  forgets :
      (at_call behind : Bus) (ssid : String) (w' : World) (r : Reply Bool)
      → forget at_call behind c ssid w ≡ ok (w', r)
      → MethodStep c w w'
  sets_auto_connect :
      (bus : Bus) (ssid : String) (enabled : Bool) (w' : World) (r : Reply Bool)
      → set_auto_connect bus c ssid enabled w ≡ ok (w', r)
      → MethodStep c w w'
  starts_hotspot :
      (first second : Bus) (ssid password : String)
      → MethodStep c w (start_hotspot first second c ssid password w).0
  stops_hotspot : (first second : Bus) → MethodStep c w (stop_hotspot first second c w).0
  sets_airplane_mode :
      (sh : Shell) (enabled : Bool) → MethodStep c w (set_airplane_mode sh enabled w).0
  checks_portal : (web : Web) → MethodStep c w (check_portal web w).0
  opens_portal : (look : Installed) → MethodStep c w (open_captive_portal look w).0
  requests_usb : MethodStep c w (request_usb_network w).0
  releases_usb : MethodStep c w (release_usb_network w).0

-- A goroutine of a method comes to its end; the networks of its scan were fetched in the state
-- of some earlier moment.
pub data TaskStep (w : World) : World → Type 0 where
  scan_ends :
      (bus : Bus) (station : String) (earlier : State) (nets : Option (List Network))
      (err : Option String)
      → fetch_networks bus station earlier ≡ ok nets
      → TaskStep w (service_scan_ends (w, nets, err))
  connect_ends :
      (ssid : String) (err : Option String) → TaskStep w (service_connect_ends ssid err w)
  connect_saved_ends : (err : Option String) → TaskStep w (service_connect_saved_ends err w)
  usb_requested : (sh : Shell) (iface : String) → TaskStep w (run_request_usb sh iface w)
  usb_released : TaskStep w (modify released w)

pub MethodStep-IsCoherent :
    (c : Option Client) (w w' : World)
    → MethodStep c w w'
    → IsCoherent (state_of w)
    → IsCoherent (state_of w')
unfolding open_captive_portal request_usb_network release_usb_network
MethodStep-IsCoherent c w w' (enables_wifi bus enabled) v = enable_wifi-IsCoherent bus c enabled w v
MethodStep-IsCoherent c w w' scans v = scan-IsCoherent c w v
MethodStep-IsCoherent c w w' (connects params _ r e) v = connect-IsCoherent c params w w' r e v
MethodStep-IsCoherent c w w' (connects_saved ssid) v = connect_saved-IsCoherent c ssid w v
MethodStep-IsCoherent c w w' (disconnects bus) v = disconnect-IsCoherent bus c w v
MethodStep-IsCoherent c w w' (forgets at_call behind ssid _ r e) v =
    forget-IsCoherent at_call behind c ssid w w' r e v
MethodStep-IsCoherent c w w' (sets_auto_connect bus ssid enabled _ r e) v =
    subst IsCoherent (sym (set_auto_connect_same bus c ssid enabled w w' r e)) v
MethodStep-IsCoherent c w w' (starts_hotspot first second ssid password) v =
    start_hotspot-IsCoherent first second c ssid password w v
MethodStep-IsCoherent c w w' (stops_hotspot first second) v =
    stop_hotspot-IsCoherent first second c w v
MethodStep-IsCoherent c w w' (sets_airplane_mode sh enabled) v =
    set_airplane_mode-IsCoherent sh enabled w v
MethodStep-IsCoherent c w w' (checks_portal web) v = check_portal-IsCoherent web w v
MethodStep-IsCoherent c w w' (opens_portal look) v = ground arith
MethodStep-IsCoherent c w w' requests_usb v = ground arith
MethodStep-IsCoherent c w w' releases_usb v = ground arith

scan_ends-IsCoherent :
    (w : World) (nets : Option (List Network)) (err : Option String)
    → AreShown nets
    → IsCoherent (state_of w)
    → IsCoherent (state_of (service_scan_ends (w, nets, err)))
unfolding service_scan_ends modify
scan_ends-IsCoherent w nets err shown v = ground arith

pub TaskStep-IsCoherent :
    (w w' : World) → TaskStep w w' → IsCoherent (state_of w) → IsCoherent (state_of w')
unfolding service_connect_ends service_connect_saved_ends run_request_usb released modify
TaskStep-IsCoherent w w' (scan_ends bus station earlier nets err e) v =
    scan_ends-IsCoherent w nets err (fetch_networks-AreShown bus station earlier nets e) v
TaskStep-IsCoherent w w' (connect_ends ssid err) v = ground arith
TaskStep-IsCoherent w w' (connect_saved_ends err) v = ground arith
TaskStep-IsCoherent w w' (usb_requested sh iface) v = ground arith
TaskStep-IsCoherent w w' usb_released v = ground arith
