-- ===== src/Dbus/Replies.antt =====
-- internal/dbus/methods.go: what the methods answer, and what they leave in the state.
use mathlib.Core.List.{head?}
use x_network.Base.{
  ◌≡◌, refl, ◌≢◌, ◌↔◌, String, Bool, true, false, not, ◌&&◌, List, [], ◌∷◌, Option, none, some,
  if◌then◌else◌, arith, eq_iff,
}
use x_network.Base.Outcome.{ok}
use x_network.Variant.{string, Props, Reply, returns}
use x_network.State.{Network, connecting, failed}
use x_network.Runtime.{go, emit, request_usb, World, state_of, modify}
use x_network.Iwd.Bus.{Bus}
use x_network.Iwd.Client.{Client}
use x_network.Iwd.Control
use x_network.Dbus.Methods
use x_network.Dbus.Methods.{service_error, no_iwd, Params, connect_with}
use x_network.Dbus.Tasks.{service_scan_ends, service_connect_ends, service_connect_saved_ends}

-- The world w' is w with calls of iwd made, and clients told of the error last.
abbrev pub Refused : String → String → World → World → Type 0
Refused operation e w w' =
    (w'.manager ≡ w.manager)
    × (head? w'.effects ≡ some (emit "Error" (string operation ∷ string e ∷ [])))

-- An iwd that answers every call with an error.
abbrev pub refusing : String → Bus → Bus
refusing e bus = record bus { failure = λ object method. some e }

-- While iwd refuses every command, EnableWifi, Disconnect, StartHotspot and StopHotspot answer
-- false (or nothing), tell clients of the error under the method's name, and leave the state as
-- it was.
pub methods-Refused :
    (bus : Bus) (c : Client) (enabled : Bool) (ssid password : String) (w : World) (e : String)
    → let b = refusing e bus in
      Refused "EnableWifi" e w (Methods.enable_wifi b (some c) enabled w).0
      × ((Methods.enable_wifi b (some c) enabled w).1 ≡ returns false)
      × Refused "Disconnect" e w (Methods.disconnect b (some c) w).0
      × Refused "StartHotspot" e w (Methods.start_hotspot b b (some c) ssid password w).0
      × ((Methods.start_hotspot b b (some c) ssid password w).1 ≡ returns false)
      × Refused "StopHotspot" e w (Methods.stop_hotspot b b (some c) w).0
unfolding Methods.enable_wifi Methods.disconnect Methods.start_hotspot Methods.stop_hotspot
    Control.set_wifi_enabled Control.disconnect Control.start_hotspot Control.stop_hotspot
methods-Refused bus c enabled ssid password w e = ground arith

abbrev pub Unavailable : {A : Type 0} → World → World × Reply A → Type 0
Unavailable w r = r ≡ (w, service_error "IWD not available")

-- Without a client of iwd, every method that needs one answers with an error and does nothing.
pub methods-no_iwd :
    (bus : Bus) (params : Props) (enabled : Bool) (ssid password : String) (w : World)
    → Unavailable w (Methods.enable_wifi bus none enabled w)
      × Unavailable w (Methods.scan none w)
      × (Methods.connect none params w ≡ ok (w, service_error "IWD not available"))
      × Unavailable w (Methods.connect_saved none ssid w)
      × Unavailable w (Methods.disconnect bus none w)
      × (Methods.forget bus bus none ssid w ≡ ok (w, service_error "IWD not available"))
      × (Methods.set_auto_connect bus none ssid enabled w
          ≡ ok (w, service_error "IWD not available"))
      × Unavailable w (Methods.start_hotspot bus bus none ssid password w)
      × Unavailable w (Methods.stop_hotspot bus bus none w)
unfolding Methods.enable_wifi Methods.scan Methods.connect Methods.connect_saved Methods.disconnect
    Methods.forget Methods.set_auto_connect Methods.start_hotspot Methods.stop_hotspot
methods-no_iwd bus params enabled ssid password w =
    (refl, refl, refl, refl, refl, refl, refl, refl, refl)

-- A hotspot that was started and then stopped, each with success, leaves every field but the two
-- of the hotspot as it was, and those say that there is none.
pub hotspot_cycle :
    (a b a' b' : Bus) (c : Client) (ssid password : String) (w : World)
    → let w1 = (Methods.start_hotspot a b (some c) ssid password w).0 in
      (Methods.start_hotspot a b (some c) ssid password w).1 ≡ returns true
      → (Control.stop_hotspot a' b' c w1).1 ≡ none
      → state_of (Methods.stop_hotspot a' b' (some c) w1).0
        ≡ record (state_of w) { hotspot_active = false; hotspot_ssid = "" }
unfolding Methods.start_hotspot Methods.stop_hotspot Control.start_hotspot Control.stop_hotspot
    modify
hotspot_cycle a b a' b' c ssid password w started stopped = ground arith

-- For any SSID but the empty one, `Connect` shows the network as the active one that is being
-- connected, with the last error taken away; a failure of the client then shows its error.
-- `ConnectSaved` shows the network and the failure too, but not the rest: an earlier error stays,
-- and its own is not stored.
pub connect_errors :
    (c : Client) (p : Params) (e : String) (w : World)
    → p.ssid ≢ ""
    → let s1 = state_of (connect_with p w).0 in
      let s2 = state_of (service_connect_ends p.ssid (some e) (connect_with p w).0) in
      let t1 = state_of (Methods.connect_saved (some c) p.ssid w).0 in
      let t2 =
        state_of
          (service_connect_saved_ends (some e) (Methods.connect_saved (some c) p.ssid w).0) in
      (s1.connection_state ≡ connecting)
      × (s1.active_ssid ≡ p.ssid)
      × (s1.last_error ≡ "")
      × (s2.connection_state ≡ failed)
      × (s2.last_error ≡ e)
      × (t1.connection_state ≡ connecting)
      × (t1.active_ssid ≡ p.ssid)
      × (t2.connection_state ≡ failed)
      × (t2.last_error ≡ (state_of w).last_error)
unfolding connect_with service_connect_ends Methods.connect_saved service_connect_saved_ends modify
connect_errors c p e w n = ground (arith, eq_iff p.ssid "")

-- The request for the USB network succeeds exactly if tethering is available on a detected
-- interface, and starts DHCP exactly if it is not connected yet. The state stays.
pub request_usb_network-returns :
    (w : World)
    → let st = state_of w in
      let (w', reply) = Methods.request_usb_network w in
      ((reply ≡ returns true)
        ↔ ((st.usb_interface_detected ≡ true) × (st.usb_tethering_available ≡ true)))
      × (w'.effects ≡ (
          if st.usb_interface_detected
            && st.usb_tethering_available
            && not st.usb_tethering_connected
          then go (request_usb st.usb_interface_name) ∷ w.effects
          else w.effects))
      × (w'.manager ≡ w.manager)
unfolding Methods.request_usb_network
request_usb_network-returns w = ground arith

-- However a scan ends, the state no longer says that one is under way, and the list of networks
-- is the one that was brought, or the one from before.
pub service_scan_ends_done :
    (w : World) (nets : Option (List Network)) (err : Option String)
    → let s = state_of (service_scan_ends (w, nets, err)) in
      (s.wifi_scanning ≡ false)
      × (s.networks ≡ elim nets [ none ↦ (state_of w).networks | some ns ↦ ns ])
unfolding service_scan_ends modify
service_scan_ends_done w nets err = ground arith
