-- ===== src/Dbus/Coherent.antt =====
-- internal/dbus/methods.go: the methods, and the goroutines that they start, keep the shared state
-- coherent.
use mathlib.Core.Path.{subst}
use x_network.Base.{
  ◌≡◌, sym, String, Bool, true, false, Option, none, some, arith, inl, inr, Option-cases,
}
use x_network.Base.Outcome.{ok, ok-injective, two_steps}
use x_network.Variant.{Props, Reply, returns}
use x_network.State.Coherent.{IsCoherent}
use x_network.Runtime.{World, Shell, state_of, modify}
use x_network.Portal.{Web}
use x_network.Iwd.Bus.{Bus}
use x_network.Iwd.Client.{Client}
use x_network.Iwd.Control
use x_network.Iwd.Known
use x_network.Dbus.Helpers.{check_captive_portal_same}
use x_network.Dbus.Methods.{
  emit_error, enable_wifi, scan, read_params, connect_with, connect, connect_saved, disconnect,
  forget, set_auto_connect, start_hotspot, stop_hotspot, set_airplane_mode, check_portal, Params,
}

pub enable_wifi-IsCoherent :
    (bus : Bus) (c : Option Client) (enabled : Bool) (w : World)
    → IsCoherent (state_of w)
    → IsCoherent (state_of (enable_wifi bus c enabled w).0)
unfolding enable_wifi modify Control.set_wifi_enabled
enable_wifi-IsCoherent bus c enabled w v = ground arith

pub scan-IsCoherent :
    (c : Option Client) (w : World) → IsCoherent (state_of w) → IsCoherent (state_of (scan c w).0)
unfolding scan modify
scan-IsCoherent c w v = ground arith

connect_with-IsCoherent :
    (p : Params) (w : World) → IsCoherent (state_of w) → IsCoherent (state_of (connect_with p w).0)
unfolding connect_with modify
connect_with-IsCoherent p w v = ground arith

pub connect-IsCoherent :
    (c : Option Client) (params : Props) (w w' : World) (r : Reply Bool)
    → connect c params w ≡ ok (w', r)
    → IsCoherent (state_of w)
    → IsCoherent (state_of w')
unfolding connect
connect-IsCoherent none params w w' r e v = ground arith
connect-IsCoherent (some c) params w w' r e v =
    let (p, ends, read) = two_steps (read_params params) (λ p. ok (connect_with p w)) e in
    subst (λ u. IsCoherent (state_of u.0)) (ok-injective (connect_with p w) (w', r) ends)
      (connect_with-IsCoherent p w v)

pub connect_saved-IsCoherent :
    (c : Option Client) (ssid : String) (w : World)
    → IsCoherent (state_of w)
    → IsCoherent (state_of (connect_saved c ssid w).0)
unfolding connect_saved modify
connect_saved-IsCoherent c ssid w v = ground arith

pub disconnect-IsCoherent :
    (bus : Bus) (c : Option Client) (w : World)
    → IsCoherent (state_of w)
    → IsCoherent (state_of (disconnect bus c w).0)
unfolding disconnect modify Control.disconnect
disconnect-IsCoherent bus c w v = ground arith

pub start_hotspot-IsCoherent :
    (first second : Bus) (c : Option Client) (ssid password : String) (w : World)
    → IsCoherent (state_of w)
    → IsCoherent (state_of (start_hotspot first second c ssid password w).0)
unfolding start_hotspot modify Control.start_hotspot
start_hotspot-IsCoherent first second c ssid password w v = ground arith

pub stop_hotspot-IsCoherent :
    (first second : Bus) (c : Option Client) (w : World)
    → IsCoherent (state_of w)
    → IsCoherent (state_of (stop_hotspot first second c w).0)
unfolding stop_hotspot modify Control.stop_hotspot
stop_hotspot-IsCoherent first second c w v = ground arith

pub set_airplane_mode-IsCoherent :
    (sh : Shell) (enabled : Bool) (w : World)
    → IsCoherent (state_of w)
    → IsCoherent (state_of (set_airplane_mode sh enabled w).0)
unfolding set_airplane_mode modify
set_airplane_mode-IsCoherent sh enabled w v = ground arith

pub check_portal-IsCoherent :
    (web : Web) (w : World) → IsCoherent (state_of w) → IsCoherent (state_of (check_portal web w).0)
unfolding check_portal modify
check_portal-IsCoherent web w v =
    ground (arith, check_captive_portal_same web, x_network.Portal.check_captive_portal_url web)

known_forget_same :
    (bus : Bus) (ssid : String) (w w' : World) (err : Option String)
    → Known.forget bus ssid w ≡ ok (w', err)
    → state_of w' ≡ state_of w
unfolding Known.forget
known_forget_same bus ssid w w' err e = ground arith

refresh_after_forget-IsCoherent :
    (bus : Bus) (w w' : World)
    → Known.refresh_after_forget bus w ≡ ok w'
    → IsCoherent (state_of w)
    → IsCoherent (state_of w')
unfolding Known.refresh_after_forget modify
refresh_after_forget-IsCoherent bus w w' e v = ground arith

pub forget-IsCoherent :
    (at_call behind : Bus) (c : Option Client) (ssid : String) (w w' : World) (r : Reply Bool)
    → forget at_call behind c ssid w ≡ ok (w', r)
    → IsCoherent (state_of w)
    → IsCoherent (state_of w')
unfolding forget
forget-IsCoherent at_call behind none ssid w w' r e v = ground arith
forget-IsCoherent at_call behind (some c) ssid w w' r e v =
    let ((w1, err), ends, forgotten) = two_steps (Known.forget at_call ssid w) _ e in
    let v1 = subst IsCoherent (sym (known_forget_same at_call ssid w w1 err forgotten)) v in
    elim (Option-cases err) [
      | inr (e1, failed) ↦
          subst (λ u. IsCoherent (state_of u.0))
            (ok-injective (emit_error "Forget" e1 w1, returns false) (w', r) (rw failed at ends)) v1
      | inl fine ↦
          let (w2, last, refreshed) =
            two_steps (Known.refresh_after_forget behind w1) (λ u. ok (u, returns true))
              (rw fine at ends) in
          subst (λ u. IsCoherent (state_of u.0)) (ok-injective (w2, returns true) (w', r) last)
            (refresh_after_forget-IsCoherent behind w1 w2 refreshed v1)
    ]

known_set_auto_connect_same :
    (bus : Bus) (ssid : String) (enabled : Bool) (w w' : World) (err : Option String)
    → Known.set_auto_connect bus ssid enabled w ≡ ok (w', err)
    → state_of w' ≡ state_of w
unfolding Known.set_auto_connect
known_set_auto_connect_same bus ssid enabled w w' err e = ground arith

pub set_auto_connect_same :
    (bus : Bus) (c : Option Client) (ssid : String) (enabled : Bool) (w w' : World) (r : Reply Bool)
    → set_auto_connect bus c ssid enabled w ≡ ok (w', r)
    → state_of w' ≡ state_of w
unfolding set_auto_connect
set_auto_connect_same bus none ssid enabled w w' r e = ground arith
set_auto_connect_same bus (some c) ssid enabled w w' r e =
    let ((w1, err), ends, done) = two_steps (Known.set_auto_connect bus ssid enabled w) _ e in
    let same = known_set_auto_connect_same bus ssid enabled w w1 err done in ground arith
