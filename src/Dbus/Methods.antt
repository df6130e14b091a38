-- ===== src/Dbus/Methods.antt =====
-- internal/dbus/methods.go: the methods that clients call, up to the goroutines that they start.
-- The client of iwd is missing if it could not be made.
use x_network.Base.{
  String, Bool, true, false, not, [], ◌∷◌, Option, none, some, lookup, ◌=s=◌, if◌then◌else◌,
}
use x_network.Base.Outcome.{Outcome, ok, ◌>>=◌}
use x_network.Variant.{
  boolean, string, byte, Props, as_string, as_bool, when_present, Reply, returns, fails,
}
use x_network.Base.Int.{pos}
use x_network.State.{disconnected, connecting}
use x_network.Runtime.{
  go, service_scan, service_connect, service_connect_saved, request_usb, release_usb, World, Shell,
  state_of, act, modify,
}
use x_network.Portal.{Web}
use x_network.Iwd.Bus.{Bus}
use x_network.Iwd.Client.{Client}
use x_network.Iwd.Control
use x_network.Iwd.Known
use x_network.Dbus.Service.{emit_signal}
use x_network.Dbus.Helpers.{Installed, set_rfkill, check_captive_portal, open_url}

abbrev pub service_error : {A : Type 0} → String → Reply A
service_error message = fails (record { name = "org.xshell.Network.Error"; message = message })

abbrev pub no_iwd : {A : Type 0} → World → World × Reply A
no_iwd w = (w, service_error "IWD not available")

abbrev pub emit_error : String → String → World → World
emit_error operation message w = emit_signal "Error" (string operation ∷ string message ∷ []) w

abbrev pub emit_connection : String → String → World → World
emit_connection state ssid w =
    emit_signal "ConnectionChanged" (string state ∷ string ssid ∷ byte 0 ∷ []) w

-- What is done after a call of the client: a signal for an error, or else `then_do`.
unfoldable pub after :
    {A : Type 0} → String → A → World × Option String → (World → World × A) → World × Reply A
unfolding emit_signal
after operation on_error (w, some e) then_do = (emit_error operation e w, returns on_error)
after operation on_error (w, none) then_do = let (w', a) = then_do w in (w', returns a)

unfoldable pub enable_wifi : Bus → Option Client → Bool → World → World × Reply Bool
unfolding after
enable_wifi bus none enabled w = no_iwd w
enable_wifi bus (some c) enabled w =
    after "EnableWifi" false (Control.set_wifi_enabled bus c enabled w) λ w'. (
      emit_signal "WifiStateChanged" (boolean enabled ∷ [])
          (modify (λ st. record st { wifi_enabled = enabled }) w'),
      true,
    )

unfoldable pub scan : Option Client → World → World × Reply (Unit {0})
scan none w = no_iwd w
scan (some c) w =
    (act (go service_scan) (modify (λ st. record st { wifi_scanning = true }) w), returns tt)

-- The four parameters of `Connect`, with their defaults.
pub record Params : Type 0 where
  pub ssid : String
  pub password : String
  pub security : String
  pub hidden : Bool

unfoldable pub read_params : Props → Outcome Params
unfolding when_present
read_params params = do
  p ←
      when_present (lookup "ssid" params) as_string (λ v p. record p { ssid = v })
        (record { ssid = ""; password = ""; security = "psk"; hidden = false })
  p ← when_present (lookup "password" params) as_string (λ v p. record p { password = v }) p
  p ← when_present (lookup "security" params) as_string (λ v p. record p { security = v }) p
  when_present (lookup "hidden" params) as_bool (λ v p. record p { hidden = v }) p

unfoldable pub connect_with : Params → World → World × Reply Bool
unfolding emit_signal
connect_with p w = if p.ssid =s= "" then (w, service_error "SSID required") else (
  act (go (service_connect p.ssid p.password p.security p.hidden)) (
      emit_connection "connecting" p.ssid (
        modify
          (λ st. record st { connection_state = connecting; active_ssid = p.ssid; last_error = "" })
          w)),
  returns true,
)

-- A parameter of the wrong type panics.
unfoldable pub connect : Option Client → Props → World → Outcome (World × Reply Bool)
unfolding read_params connect_with
connect none params w = ok (no_iwd w)
connect (some c) params w = read_params params >>= λ p. ok (connect_with p w)

unfoldable pub connect_saved : Option Client → String → World → World × Reply Bool
unfolding emit_signal
connect_saved none ssid w = no_iwd w
connect_saved (some c) ssid w = (
  act (go (service_connect_saved ssid)) (
      emit_connection "connecting" ssid
        (modify (λ st. record st { connection_state = connecting; active_ssid = ssid }) w)),
  returns true,
)

unfoldable pub disconnect : Bus → Option Client → World → World × Reply (Unit {0})
unfolding after
disconnect bus none w = no_iwd w
disconnect bus (some c) w =
    let ssid = (state_of w).active_ssid in
    after "Disconnect" tt (Control.disconnect bus c w) λ w'. (
      emit_connection "disconnected" ssid (
          modify
            (λ st. record st {
              connection_state = disconnected;
              active_ssid = "";
              signal_rssi = pos 0;
              signal_strength = 0;
            })
            w'),
      tt,
    )

-- iwd at the call, and at the reading of what it knows then.
unfoldable pub forget :
    (at_call behind : Bus) → Option Client → String → World → Outcome (World × Reply Bool)
unfolding emit_signal
forget at_call behind none ssid w = ok (no_iwd w)
forget at_call behind (some c) ssid w = Known.forget at_call ssid w >>= λ r. elim r.1 [
  | some e ↦ ok (emit_error "Forget" e r.0, returns false)
  | none ↦ Known.refresh_after_forget behind r.0 >>= λ w'. ok (w', returns true)
]

unfoldable pub set_auto_connect :
    Bus → Option Client → String → Bool → World → Outcome (World × Reply Bool)
unfolding after
set_auto_connect bus none ssid enabled w = ok (no_iwd w)
set_auto_connect bus (some c) ssid enabled w = Known.set_auto_connect bus ssid enabled w >>= λ r.
    ok (after "SetAutoConnect" false r (λ w'. (w', true)))

unfoldable pub start_hotspot :
    (first second : Bus) → Option Client → String → String → World → World × Reply Bool
unfolding after
start_hotspot first second none ssid password w = no_iwd w
start_hotspot first second (some c) ssid password w =
    after "StartHotspot" false (Control.start_hotspot first second c ssid password w)
      λ w'. (modify (λ st. record st { hotspot_active = true; hotspot_ssid = ssid }) w', true)

unfoldable pub stop_hotspot :
    (first second : Bus) → Option Client → World → World × Reply (Unit {0})
unfolding after
stop_hotspot first second none w = no_iwd w
stop_hotspot first second (some c) w =
    after "StopHotspot" tt (Control.stop_hotspot first second c w)
      λ w'. (modify (λ st. record st { hotspot_active = false; hotspot_ssid = "" }) w', tt)

unfoldable pub set_airplane_mode : Shell → Bool → World → World × Reply Bool
unfolding after set_rfkill
set_airplane_mode sh enabled w =
    after "SetAirplaneMode" false (set_rfkill sh enabled w)
      λ w'. (modify (λ st. record st { airplane_mode = enabled }) w', true)

-- Here no guard asks for the network, and the SSID that was checked is not noted.
unfoldable pub check_portal : Web → World → World × Reply Bool
unfolding emit_signal
check_portal web w =
    let (detected, url) = check_captive_portal web in
    (
      emit_signal "CaptivePortalStatus" (boolean detected ∷ string url ∷ []) (
          modify (λ st. record st { captive_portal_detected = detected; captive_portal_url = url })
            w),
      returns detected,
    )

unfoldable pub open_captive_portal : Installed → World → World × Reply (Unit {0})
unfolding open_url
open_captive_portal look w = (
  if (state_of w).captive_portal_url =s= ""
      then w
      else open_url look (state_of w).captive_portal_url w,
  returns tt,
)

unfoldable pub request_usb_network : World → World × Reply Bool
request_usb_network w =
    let st = state_of w in
    if not st.usb_interface_detected
    then (w, service_error "No USB network interface detected")
    else (if not st.usb_tethering_available
        then (w, service_error "USB tethering not available (no carrier)")
        else (if st.usb_tethering_connected
            then (w, returns true)
            else (act (go (request_usb st.usb_interface_name)) w, returns true)))

unfoldable pub release_usb_network : World → World × Reply (Unit {0})
release_usb_network w =
    let st = state_of w in
    if st.usb_interface_name =s= ""
    then (w, returns tt)
    else (act (go (release_usb st.usb_interface_name)) w, returns tt)
