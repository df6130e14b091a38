-- ===== src/Dbus/Tasks.antt =====
-- internal/dbus/methods.go: what the goroutines of the methods do.
use x_network.Base.{String, false, List, [], ◌∷◌, Option, none, some}
use x_network.Base.Outcome.{Outcome, ok, ◌>>=◌}
use x_network.State.{State, Network, failed}
use x_network.Runtime.{exec, World, Shell, act, modify}
use x_network.Iwd.Bus.{Bus}
use x_network.Iwd.Scan.{ScanResult}
use x_network.Iwd.Scan
use x_network.Dbus.Service.{emit_signal}
use x_network.Dbus.Methods.{emit_error, emit_connection}

abbrev pub with_networks : Option (List Network) → State → State
with_networks none st = st
with_networks (some nets) st = record st { networks = nets }

-- Behind the client's scan, whatever came of it.
unfoldable pub service_scan_ends : ScanResult → World
unfolding emit_signal
service_scan_ends (w, nets, err) =
    let done = modify (λ st. with_networks nets (record st { wifi_scanning = false })) w in
    elim err [ none ↦ done | some e ↦ emit_error "Scan" e done ]

unfoldable pub run_service_scan :
    (at_call first second : Bus)
    → String
    → (meanwhile then_meanwhile : World → World) → World
    → Outcome World
unfolding service_scan_ends
run_service_scan at_call first second station meanwhile then_meanwhile w =
    Scan.scan at_call first second station meanwhile then_meanwhile w >>= λ r.
    ok (service_scan_ends r)

-- Behind the client's `Connect`, with its error: success is left to the signals of iwd.
unfoldable pub service_connect_ends : String → Option String → World → World
unfolding emit_signal
service_connect_ends ssid none w = w
service_connect_ends ssid (some e) w = emit_connection "failed" ssid (
    emit_error "Connect" e
      (modify (λ st. record st { connection_state = failed; last_error = e }) w))

-- Behind the client's `ConnectSaved`.
unfoldable pub service_connect_saved_ends : Option String → World → World
unfolding emit_signal
service_connect_saved_ends none w = w
service_connect_saved_ends (some e) w =
    emit_error "ConnectSaved" e (modify (λ st. record st { connection_state = failed }) w)

unfoldable pub request_answered : Option String → World → World
unfolding emit_signal
request_answered none w = w
request_answered (some e) w = emit_error "RequestUsbNetwork" e w

unfoldable pub run_request_usb : Shell → String → World → World
unfolding request_answered
run_request_usb sh iface w =
    let command = "dhcpcd" ∷ "-4" ∷ "-q" ∷ iface ∷ [] in
    request_answered (sh command) (act (exec command) w)

-- The closure behind the release.
unfoldable pub released : State → State
released st = record st { usb_tethering_connected = false }

-- The command's error does not matter. While it runs, the other goroutines do `meanwhile`.
unfoldable pub run_release_usb : String → (meanwhile : World → World) → World → World
unfolding released
run_release_usb iface meanwhile w =
    modify released (meanwhile (act (exec ("dhcpcd" ∷ "-k" ∷ iface ∷ [])) w))
