-- ===== src/Dbus/Stable.antt =====
-- internal/dbus/methods.go: what every Update keeps is kept by the methods and their goroutines.
use mathlib.Core.Path.{subst}
use x_network.Base.{
  ◌≡◌, String, Bool, true, false, List, [], ◌∷◌, Option, none, some, arith, inl, inr, Option-cases,
  Bool-cases, ◌=s=◌,
}
use x_network.Base.Outcome.{ok, ok-injective, two_steps}
use x_network.Variant.{Variant, Props, Reply, returns}
use x_network.State.{Network}
use x_network.Runtime.{World, Shell}
use x_network.Runtime.Stable.{
  Stable, emit-Stable, call-Stable, exec-Stable, go-Stable, modify-Stable,
}
use x_network.Portal.{Web}
use x_network.Iwd.Bus.{Bus}
use x_network.Iwd.Client.{Client}
use x_network.Iwd.Control
use x_network.Iwd.Known
use x_network.Dbus.Service.{emit_signal}
use x_network.Dbus.Helpers.{Installed, set_rfkill}
use x_network.Dbus.Methods.{
  after, emit_error, enable_wifi, scan, read_params, connect_with, connect, connect_saved,
  disconnect, forget, set_auto_connect, start_hotspot, stop_hotspot, set_airplane_mode,
  check_portal, open_captive_portal, request_usb_network, release_usb_network, Params,
}
use x_network.Dbus.Tasks.{
  service_scan_ends, service_connect_ends, service_connect_saved_ends, request_answered,
  run_request_usb,
}
use x_network.Dbus.Steps.{
  MethodStep, enables_wifi, scans, connects, connects_saved, disconnects, forgets,
  sets_auto_connect, starts_hotspot, stops_hotspot, sets_airplane_mode, checks_portal, opens_portal,
  requests_usb, releases_usb, TaskStep, scan_ends, connect_ends, connect_saved_ends, usb_requested,
  usb_released,
}

module _ (P : World → Type 0) (stable : Stable P) where
  told-Stable : (operation message : String) (w : World) → P w → P (emit_error operation message w)
  unfolding emit_signal
  told-Stable operation message w v = emit-Stable P stable "Error" _ w v

  after-Stable :
      {A : Type 0} (operation : String) (on_error : A) (r : World × Option String)
      (then_do : World → World × A)
      → P r.0
      → ((w : World) → P w → P (then_do w).0)
      → P (after operation on_error r then_do).0
  unfolding after
  after-Stable operation on_error (w, some e) then_do v k = told-Stable operation e w v
  after-Stable operation on_error (w, none) then_do v k = k w v

  enable_wifi-Stable :
      (bus : Bus) (c : Option Client) (enabled : Bool) (w : World)
      → P w
      → P (enable_wifi bus c enabled w).0
  unfolding enable_wifi emit_signal Control.set_wifi_enabled
  enable_wifi-Stable bus none enabled w v = v
  enable_wifi-Stable bus (some c) enabled w v =
      after-Stable "EnableWifi" false (Control.set_wifi_enabled bus c enabled w) _
        (call-Stable P stable _ _ _ w v)
        λ w' v'. emit-Stable P stable _ _ _ (modify-Stable P stable _ w' v')

  scan-Stable : (c : Option Client) (w : World) → P w → P (scan c w).0
  unfolding scan
  scan-Stable none w v = v
  scan-Stable (some c) w v = go-Stable P stable _ _ (modify-Stable P stable _ w v)

  connect_with-Stable : (p : Params) (w : World) → P w → P (connect_with p w).0
  unfolding connect_with emit_signal
  connect_with-Stable p w v = elim (Bool-cases (p.ssid =s= "")) [
    | inl e ↦ rw e v
    | inr n ↦
        rw n (go-Stable P stable _ _ (emit-Stable P stable _ _ _ (modify-Stable P stable _ w v)))
  ]

  connect-Stable :
      (c : Option Client) (params : Props) (w w' : World) (r : Reply Bool)
      → connect c params w ≡ ok (w', r)
      → P w
      → P w'
  unfolding connect
  connect-Stable none params w w' r e v = ground arith
  connect-Stable (some c) params w w' r e v =
      let (p, ends, read) = two_steps (read_params params) (λ p. ok (connect_with p w)) e in
      subst (λ u. P u.0) (ok-injective (connect_with p w) (w', r) ends) (connect_with-Stable p w v)

  connect_saved-Stable :
      (c : Option Client) (ssid : String) (w : World) → P w → P (connect_saved c ssid w).0
  unfolding connect_saved emit_signal
  connect_saved-Stable none ssid w v = v
  connect_saved-Stable (some c) ssid w v =
      go-Stable P stable _ _ (emit-Stable P stable _ _ _ (modify-Stable P stable _ w v))

  disconnect-Stable : (bus : Bus) (c : Option Client) (w : World) → P w → P (disconnect bus c w).0
  unfolding disconnect emit_signal Control.disconnect
  disconnect-Stable bus none w v = v
  disconnect-Stable bus (some c) w v =
      after-Stable "Disconnect" tt (Control.disconnect bus c w) _ (call-Stable P stable _ _ _ w v)
        λ w' v'. emit-Stable P stable _ _ _ (modify-Stable P stable _ w' v')

  two_calls-Stable :
      (r : World × Option String) (next : World → World × Option String)
      → P r.0
      → ((w : World) → P w → P (next w).0)
      → P (Control.and_then r next).0
  unfolding Control.and_then
  two_calls-Stable (w, some e) next v k = v
  two_calls-Stable (w, none) next v k = k w v

  start_hotspot-Stable :
      (first second : Bus) (c : Option Client) (ssid password : String) (w : World)
      → P w
      → P (start_hotspot first second c ssid password w).0
  unfolding start_hotspot Control.start_hotspot
  start_hotspot-Stable first second none ssid password w v = v
  start_hotspot-Stable first second (some c) ssid password w v =
      after-Stable "StartHotspot" false (Control.start_hotspot first second c ssid password w) _
        (two_calls-Stable _ _ (call-Stable P stable _ _ _ w v) λ u. call-Stable P stable _ _ _ u)
        λ w' v'. modify-Stable P stable _ w' v'

  stop_hotspot-Stable :
      (first second : Bus) (c : Option Client) (w : World)
      → P w
      → P (stop_hotspot first second c w).0
  unfolding stop_hotspot Control.stop_hotspot
  stop_hotspot-Stable first second none w v = v
  stop_hotspot-Stable first second (some c) w v =
      after-Stable "StopHotspot" tt (Control.stop_hotspot first second c w) _
        (two_calls-Stable _ _ (call-Stable P stable _ _ _ w v) λ u. call-Stable P stable _ _ _ u)
        λ w' v'. modify-Stable P stable _ w' v'

  set_airplane_mode-Stable :
      (sh : Shell) (enabled : Bool) (w : World) → P w → P (set_airplane_mode sh enabled w).0
  unfolding set_airplane_mode set_rfkill
  set_airplane_mode-Stable sh enabled w v =
      after-Stable "SetAirplaneMode" false (set_rfkill sh enabled w) _ (exec-Stable P stable _ w v)
        λ w' v'. modify-Stable P stable _ w' v'

  check_portal-Stable : (web : Web) (w : World) → P w → P (check_portal web w).0
  unfolding check_portal emit_signal
  check_portal-Stable web w v = emit-Stable P stable _ _ _ (modify-Stable P stable _ w v)

  open_captive_portal-Stable :
      (look : Installed) (w : World) → P w → P (open_captive_portal look w).0
  unfolding open_captive_portal
  open_captive_portal-Stable look w v = grind (arith, exec-Stable P stable)

  request_usb_network-Stable : (w : World) → P w → P (request_usb_network w).0
  unfolding request_usb_network
  request_usb_network-Stable w v = grind (arith, go-Stable P stable)

  release_usb_network-Stable : (w : World) → P w → P (release_usb_network w).0
  unfolding release_usb_network
  release_usb_network-Stable w v = grind (arith, go-Stable P stable)

  same_known-Stable :
      (bus : Bus) (ssid method : String) (args : List Variant) (found : Option String) (w : World)
      → P w
      → P (Known.on_known bus ssid method args w found).0
  unfolding Known.on_known
  same_known-Stable bus ssid method args none w v = v
  same_known-Stable bus ssid method args (some path) w v = call-Stable P stable _ _ _ w v

  with_known-Stable :
      (bus : Bus) (ssid method : String) (args : List Variant) (w w' : World) (err : Option String)
      → Known.with_known bus ssid method args w ≡ ok (w', err)
      → P w
      → P w'
  unfolding Known.with_known
  with_known-Stable bus ssid method args w w' err e v = elim (Option-cases bus.managed_objects) [
    | inl none_there ↦
        subst (λ u. P u.0)
          (ok-injective (w, some bus.managed_objects_error) (w', err)
            (rw (none_there, Known.with_known) at e))
          v
    | inr (objects, there) ↦
        let (found, ends, seen) =
          two_steps (Known.find_known ssid objects)
            (λ found. ok (Known.on_known bus ssid method args w found))
            (rw (there, Known.with_known) at e) in
        subst (λ u. P u.0)
          (ok-injective (Known.on_known bus ssid method args w found) (w', err) ends)
          (same_known-Stable bus ssid method args found w v)
  ]

  set_auto_connect-Stable :
      (bus : Bus) (c : Option Client) (ssid : String) (enabled : Bool) (w w' : World)
      (r : Reply Bool)
      → set_auto_connect bus c ssid enabled w ≡ ok (w', r)
      → P w
      → P w'
  unfolding set_auto_connect Known.set_auto_connect
  set_auto_connect-Stable bus none ssid enabled w w' r e v = ground arith
  set_auto_connect-Stable bus (some c) ssid enabled w w' r e v =
      let ((w1, err), ends, done) = two_steps (Known.set_auto_connect bus ssid enabled w) _ e in
      subst (λ u. P u.0)
        (ok-injective (after "SetAutoConnect" false (w1, err) (λ u. (u, true))) (w', r) ends)
        (after-Stable "SetAutoConnect" false (w1, err) _
          (with_known-Stable bus ssid _ _ w w1 err done v) λ u k. k)

  refresh_after_forget-Stable :
      (bus : Bus) (w w' : World) → Known.refresh_after_forget bus w ≡ ok w' → P w → P w'
  unfolding Known.refresh_after_forget
  refresh_after_forget-Stable bus w w' e v = grind (arith, modify-Stable P stable)

  forget-Stable :
      (at_call behind : Bus) (c : Option Client) (ssid : String) (w w' : World) (r : Reply Bool)
      → forget at_call behind c ssid w ≡ ok (w', r)
      → P w
      → P w'
  unfolding forget Known.forget
  forget-Stable at_call behind none ssid w w' r e v = ground arith
  forget-Stable at_call behind (some c) ssid w w' r e v =
      let ((w1, err), ends, forgotten) = two_steps (Known.forget at_call ssid w) _ e in
      let v1 = with_known-Stable at_call ssid _ _ w w1 err forgotten v in
      elim (Option-cases err) [
        | inr (e1, failed) ↦
            subst (λ u. P u.0)
              (ok-injective (emit_error "Forget" e1 w1, returns false) (w', r) (rw failed at ends))
              (told-Stable "Forget" e1 w1 v1)
        | inl fine ↦
            let (w2, last, refreshed) =
              two_steps (Known.refresh_after_forget behind w1) (λ u. ok (u, returns true))
                (rw fine at ends) in
            subst (λ u. P u.0) (ok-injective (w2, returns true) (w', r) last)
              (refresh_after_forget-Stable behind w1 w2 refreshed v1)
      ]

  pub MethodStep-Stable : (c : Option Client) (w w' : World) → MethodStep c w w' → P w → P w'
  MethodStep-Stable c w w' (enables_wifi bus enabled) v = enable_wifi-Stable bus c enabled w v
  MethodStep-Stable c w w' scans v = scan-Stable c w v
  MethodStep-Stable c w w' (connects params _ r e) v = connect-Stable c params w w' r e v
  MethodStep-Stable c w w' (connects_saved ssid) v = connect_saved-Stable c ssid w v
  MethodStep-Stable c w w' (disconnects bus) v = disconnect-Stable bus c w v
  MethodStep-Stable c w w' (forgets at_call behind ssid _ r e) v =
      forget-Stable at_call behind c ssid w w' r e v
  MethodStep-Stable c w w' (sets_auto_connect bus ssid enabled _ r e) v =
      set_auto_connect-Stable bus c ssid enabled w w' r e v
  MethodStep-Stable c w w' (starts_hotspot first second ssid password) v =
      start_hotspot-Stable first second c ssid password w v
  MethodStep-Stable c w w' (stops_hotspot first second) v = stop_hotspot-Stable first second c w v
  MethodStep-Stable c w w' (sets_airplane_mode sh enabled) v =
      set_airplane_mode-Stable sh enabled w v
  MethodStep-Stable c w w' (checks_portal web) v = check_portal-Stable web w v
  MethodStep-Stable c w w' (opens_portal look) v = open_captive_portal-Stable look w v
  MethodStep-Stable c w w' requests_usb v = request_usb_network-Stable w v
  MethodStep-Stable c w w' releases_usb v = release_usb_network-Stable w v

  scan_ends-Stable :
      (w : World) (nets : Option (List Network)) (err : Option String)
      → P w
      → P (service_scan_ends (w, nets, err))
  unfolding service_scan_ends
  scan_ends-Stable w nets none v = modify-Stable P stable _ w v
  scan_ends-Stable w nets (some e) v = told-Stable "Scan" e _ (modify-Stable P stable _ w v)

  answered-Stable : (err : Option String) (w : World) → P w → P (request_answered err w)
  unfolding request_answered
  answered-Stable none w v = v
  answered-Stable (some e) w v = told-Stable "RequestUsbNetwork" e w v

  pub TaskStep-Stable : (w w' : World) → TaskStep w w' → P w → P w'
  unfolding service_connect_ends service_connect_saved_ends run_request_usb emit_signal
  TaskStep-Stable w w' (scan_ends bus station earlier nets err e) v = scan_ends-Stable w nets err v
  TaskStep-Stable w w' (connect_ends ssid none) v = v
  TaskStep-Stable w w' (connect_ends ssid (some e)) v =
      emit-Stable P stable _ _ _ (told-Stable "Connect" e _ (modify-Stable P stable _ w v))
  TaskStep-Stable w w' (connect_saved_ends none) v = v
  TaskStep-Stable w w' (connect_saved_ends (some e)) v =
      told-Stable "ConnectSaved" e _ (modify-Stable P stable _ w v)
  TaskStep-Stable w w' (usb_requested sh iface) v =
      answered-Stable (sh ("dhcpcd" ∷ "-4" ∷ "-q" ∷ iface ∷ [])) _ (exec-Stable P stable _ w v)
  TaskStep-Stable w w' usb_released v = modify-Stable P stable _ w v
