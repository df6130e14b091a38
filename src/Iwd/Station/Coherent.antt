-- ===== src/Iwd/Station/Coherent.antt =====
-- internal/iwd/client.go: the signals of the station, and what a new connection starts, keep the
-- shared state coherent.
use mathlib.Core.Path.{subst}
use x_network.Base.{
  ◌≡◌, String, Bool, true, false, List, [], ◌∷◌, Option, none, some, lookup, arith, ◌=s=◌,
  Bool-cases, inl, inr,
}
use x_network.Base.Outcome.{ok, ok-injective, two_steps}
use x_network.Variant.{Variant, Props, as_string, as_bool, when_present, when_present_keeps}
use x_network.State.{State}
use x_network.State.Coherent.{IsCoherent}
use x_network.Runtime.{Effect, World, state_of, modify, modify_or_panic, modify_or_panic_keeps}
use x_network.Portal.{Web, check_captive_portal, check_captive_portal_url}
use x_network.Iwd.Bus.{Bus, Value, Signal, station_iface, device_iface}
use x_network.Iwd.Client.{connected_network}
use x_network.Iwd.Client.Coherent.{connected_network-IsCoherent}
use x_network.Iwd.Networks.Coherent.{refresh_networks-IsCoherent}
use x_network.Iwd.Client.Setup.{store_saved}
use x_network.Iwd.Known.{refresh_known_networks}
use x_network.Iwd.Station.{
  station_state, state_changed, station_change, scan_completed, refresh_if, connected_now,
  handle_station_change, device_change, handle_device_change, changed, property_change,
  handle_property_change, after_connected_first, store_portal,
}

station_state-IsCoherent :
    (text : String) (st : State) → IsCoherent st → IsCoherent (station_state text st).0
unfolding station_state
station_state-IsCoherent text st v = ground arith

state_changed-IsCoherent :
    (o : Option Variant) (st st' : State) (started : List Effect)
    → state_changed o st ≡ ok (st', started)
    → IsCoherent st
    → IsCoherent st'
unfolding state_changed
state_changed-IsCoherent none st st' started e v =
    subst (λ r. IsCoherent r.0) (ok-injective (st, []) (st', started) e) v
state_changed-IsCoherent (some x) st st' started e v =
    let (text, ends, read) = two_steps (as_string x) _ e in
    subst (λ r. IsCoherent r.0) (ok-injective (station_state text st) (st', started) ends)
      (station_state-IsCoherent text st v)

station_change-IsCoherent :
    (bus : Bus) (station : String) (ps : Props) (st st' : State) (started : List Effect)
    → station_change bus station ps st ≡ ok (st', started)
    → IsCoherent st
    → IsCoherent st'
unfolding station_change
station_change-IsCoherent bus station ps st st' started e v =
    let ((st1, begun), later, stated) = two_steps (state_changed (lookup "State" ps) st) _ e in
    let (st2, last, scanned) =
      two_steps (when_present (lookup "Scanning" ps) as_bool _ st1) _ later in
    let (st3, ends, joined) =
      two_steps (connected_network bus station (lookup "ConnectedNetwork" ps) st2) _ last in
    let v1 = state_changed-IsCoherent (lookup "State" ps) st st1 begun stated v in
    let v2 =
      when_present_keeps IsCoherent (lookup "Scanning" ps) as_bool _ st1 scanned
        (λ a h. ground arith) v1 in
    let v3 =
      connected_network-IsCoherent bus station (lookup "ConnectedNetwork" ps) st2 st3 joined v2 in
    subst (λ r. IsCoherent r.0) (ok-injective (st3, begun) (st', started) ends) v3

-- The Update of the handler by itself, with the others of the daemon behind it.
pub modify_station-IsCoherent :
    (bus : Bus) (station : String) (ps : Props) (w w' : World)
    → modify_or_panic (station_change bus station ps) w ≡ ok w'
    → IsCoherent (state_of w)
    → IsCoherent (state_of w')
modify_station-IsCoherent bus station ps w w' e v =
    modify_or_panic_keeps IsCoherent _ w w' e
      λ s started given. station_change-IsCoherent bus station ps (state_of w) s started given v

refresh_if-IsCoherent :
    (b : Bool) (bus : Bus) (station : String) (w w' : World)
    → refresh_if b bus station w ≡ ok w'
    → IsCoherent (state_of w)
    → IsCoherent (state_of w')
unfolding refresh_if
refresh_if-IsCoherent true bus station w w' e v = refresh_networks-IsCoherent bus station w w' e v
refresh_if-IsCoherent false bus station w w' e v =
    subst (λ u. IsCoherent (state_of u)) (ok-injective w w' e) v

connected_now-IsCoherent :
    (o : Option Variant) (w w' : World)
    → connected_now o w ≡ ok w'
    → IsCoherent (state_of w)
    → IsCoherent (state_of w')
unfolding connected_now as_string
connected_now-IsCoherent o w w' e v = ground arith

handle_station_change-IsCoherent :
    (during behind : Bus) (station : String) (ps : Props) (w w' : World)
    → handle_station_change during behind station ps w ≡ ok w'
    → IsCoherent (state_of w)
    → IsCoherent (state_of w')
unfolding handle_station_change
handle_station_change-IsCoherent during behind station ps w w' e v =
    let (completed, one, seen) = two_steps (scan_completed (lookup "Scanning" ps)) _ e in
    let (w1, two, changed1) =
      two_steps (modify_or_panic (station_change during station ps) w) _ one in
    let (w2, three, refreshed) = two_steps (refresh_if completed behind station w1) _ two in
    connected_now-IsCoherent (lookup "State" ps) w2 w' three (
      refresh_if-IsCoherent completed behind station w1 w2 refreshed
        (modify_station-IsCoherent during station ps w w1 changed1 v))

handle_device_change-IsCoherent :
    (ps : Props) (w w' : World)
    → handle_device_change ps w ≡ ok w'
    → IsCoherent (state_of w)
    → IsCoherent (state_of w')
unfolding handle_device_change device_change
handle_device_change-IsCoherent ps w w' e v =
    modify_or_panic_keeps IsCoherent _ w w' e λ s started given.
      let (s1, ends, read) = two_steps (device_change ps (state_of w)) _ given in
      let v1 =
        when_present_keeps IsCoherent (lookup "Powered" ps) as_bool _ (state_of w) read
          (λ a h. ground arith) v in
      subst (λ r. IsCoherent r.0) (ok-injective (s1, []) (s, started) ends) v1

changed-IsCoherent :
    (during behind : Bus) (station iface : String) (ps : Props) (w w' : World)
    → changed during behind station iface ps w ≡ ok w'
    → IsCoherent (state_of w)
    → IsCoherent (state_of w')
unfolding changed
changed-IsCoherent during behind station iface ps w w' e v =
    elim (Bool-cases (iface =s= station_iface)) [
      | inl is_station ↦
          handle_station_change-IsCoherent during behind station ps w w'
            (rw (is_station, changed) at e) v
      | inr n ↦ elim (Bool-cases (iface =s= device_iface)) [
        | inl is_device ↦
            handle_device_change-IsCoherent ps w w' (rw (n, is_device, changed) at e) v
        | inr m ↦
            subst (λ u. IsCoherent (state_of u)) (ok-injective w w' (rw (n, m, changed) at e)) v
      ]
    ]

property_change-IsCoherent :
    (during behind : Bus) (station : String) (body : List Value) (w w' : World)
    → property_change during behind station body w ≡ ok w'
    → IsCoherent (state_of w)
    → IsCoherent (state_of w')
unfolding property_change
property_change-IsCoherent during behind station (Value.text iface ∷ Value.props ps ∷ more) w w' e
      v =
    changed-IsCoherent during behind station iface ps w w' e v
property_change-IsCoherent during behind station body w w' e v =
    subst (λ u. IsCoherent (state_of u)) (ok-injective w w' e) v

pub handle_property_change-IsCoherent :
    (during behind : Bus) (station : String) (sig : Signal) (w w' : World)
    → handle_property_change during behind station sig w ≡ ok w'
    → IsCoherent (state_of w)
    → IsCoherent (state_of w')
unfolding handle_property_change
handle_property_change-IsCoherent during behind station sig w w' e v =
    elim (Bool-cases (sig.name =s= "org.freedesktop.DBus.Properties.PropertiesChanged")) [
      | inl is_change ↦
          property_change-IsCoherent during behind station sig.body w w'
            (rw (is_change, handle_property_change) at e) v
      | inr n ↦
          subst (λ u. IsCoherent (state_of u))
            (ok-injective w w' (rw (n, handle_property_change) at e)) v
    ]

pub refresh_known_networks-IsCoherent :
    (bus : Bus) (w w' : World)
    → refresh_known_networks bus w ≡ ok w'
    → IsCoherent (state_of w)
    → IsCoherent (state_of w')
unfolding refresh_known_networks store_saved modify
refresh_known_networks-IsCoherent bus w w' e v = ground arith

pub after_connected_first-IsCoherent :
    (bus : Bus) (station : String) (w w' : World)
    → after_connected_first bus station w ≡ ok w'
    → IsCoherent (state_of w)
    → IsCoherent (state_of w')
unfolding after_connected_first
after_connected_first-IsCoherent bus station w w' e v =
    let (w1, ends, known) = two_steps (refresh_known_networks bus w) _ e in
    refresh_networks-IsCoherent bus station w1 w' ends
      (refresh_known_networks-IsCoherent bus w w1 known v)

pub store_portal-IsCoherent :
    (web : Web) (ssid : String) (st : State)
    → IsCoherent st
    → IsCoherent (store_portal ssid (check_captive_portal web) st)
unfolding store_portal
store_portal-IsCoherent web ssid st v = ground (arith, check_captive_portal_url web)
