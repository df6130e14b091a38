-- ===== src/Iwd/Control.antt =====
-- internal/iwd/client.go: the calls that switch the device, the hotspot, and the USB fallback.
use x_network.Base.{String, Bool, true, List, [], ◌∷◌, Option, none, some}
use x_network.Variant.{Variant, boolean, string}
use x_network.State.{State}
use x_network.Runtime.{call, exec, World, Shell, act, modify}
use x_network.Iwd.Bus.{Bus, device_iface, properties_set}
use x_network.Iwd.Client.{Client}

-- A call with its error.
abbrev calls : Bus → String → String → List Variant → World → World × Option String
calls bus object method args w = (act (call object method args) w, bus.failure object method)

-- A second call, if the first brought no error.
unfoldable pub and_then :
    World × Option String → (World → World × Option String) → World × Option String
and_then (w, some e) next = (w, some e)
and_then (w, none) next = next w

unfoldable pub set_wifi_enabled : Bus → Client → Bool → World → World × Option String
set_wifi_enabled bus c enabled w =
    calls bus c.device_path properties_set
      (string device_iface ∷ string "Powered" ∷ boolean enabled ∷ []) w

unfoldable pub disconnect : Bus → Client → World → World × Option String
disconnect bus c w = calls bus c.station_path "net.connman.iwd.Station.Disconnect" [] w

abbrev set_mode : Bus → Client → String → World → World × Option String
set_mode bus c mode w =
    calls bus c.device_path properties_set (string device_iface ∷ string "Mode" ∷ string mode ∷ [])
      w

-- iwd answers the two calls at two moments.
unfoldable pub start_hotspot :
    (first second : Bus) → Client → String → String → World → World × Option String
unfolding and_then
start_hotspot first second c ssid password w = and_then (set_mode first c "ap" w) λ w'.
    calls second c.device_path "net.connman.iwd.AccessPoint.Start"
      (string ssid ∷ string password ∷ []) w'

unfoldable pub stop_hotspot : (first second : Bus) → Client → World → World × Option String
unfolding and_then
stop_hotspot first second c w =
    and_then (calls first c.device_path "net.connman.iwd.AccessPoint.Stop" [] w)
      λ w'. set_mode second c "station" w'

abbrev runs : Shell → List String → World → World × Option String
runs sh command w = (act (exec command) w, sh command)

-- The closure at the end of the fallback.
unfoldable pub fallen_back : State → State
fallen_back st = record st { usb_tethering_connected = true; connection_type = "usb" }

fallback_done : World × Option String → World
unfolding fallen_back
fallback_done (w, some e) = w
fallback_done (w, none) = modify fallen_back w

-- The two commands run one after the other, and other goroutines beside them: the shell's
-- answers are those of the two moments, and `meanwhile` is what happens to the world.
unfoldable pub try_usb_fallback : Shell → String → (meanwhile : World → World) → World → World
unfolding and_then fallback_done
try_usb_fallback sh iface meanwhile w = fallback_done (
    and_then (runs sh ("sudo" ∷ "ip" ∷ "link" ∷ "set" ∷ iface ∷ "up" ∷ []) w)
      λ w'. runs sh ("sudo" ∷ "dhcpcd" ∷ "-4" ∷ "-w" ∷ iface ∷ []) (meanwhile w'))
