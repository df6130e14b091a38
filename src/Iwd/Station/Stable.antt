-- ===== src/Iwd/Station/Stable.antt =====
-- internal/iwd/client.go: what every Update keeps is kept by the signals of the station, and by what
-- a new connection starts.
use mathlib.Core.Path.{subst}
use x_network.Base.{
  ◌≡◌, String, Bool, true, false, List, ◌∷◌, Option, none, some, lookup, All, ◌=s=◌, if◌then◌else◌,
  inl, inr, Bool-cases, Option-cases, arith,
}
use x_network.Base.Outcome.{ok, ok-injective, two_steps}
use x_network.Variant.{Variant, Props, as_string, as_bool, when_present}
use x_network.State.{State, Network}
use x_network.Runtime.{Effect, World, state_of, act, modify_or_panic}
use x_network.Runtime.Stable.{Stable, IsOutside, modify-Stable, modify_or_panic-Stable}
use x_network.Iwd.Bus.{Bus, Value, Signal, station_iface, device_iface}
use x_network.Iwd.Client.{connected_network}
use x_network.Iwd.Client.Setup.{store_saved}
use x_network.Iwd.Client.Setup.Stable.{modify_state-Stable, store_saved-Stable}
use x_network.Iwd.Networks.{fetch_networks, store_networks, refresh_networks}
use x_network.Iwd.Known.{known_names, refresh_known_networks}
use x_network.Iwd.Station.{
  state_changed, station_change, scan_completed, refresh_if, connected_now, handle_station_change,
  device_change, handle_device_change, changed, property_change, handle_property_change,
  after_connected_first,
}

state_changed-IsOutside :
    (o : Option Variant) (st st' : State) (started : List Effect)
    → state_changed o st ≡ ok (st', started)
    → All IsOutside started
unfolding state_changed as_string
state_changed-IsOutside o st st' started e = ground arith

station_change-IsOutside :
    (bus : Bus) (station : String) (ps : Props) (st st' : State) (started : List Effect)
    → station_change bus station ps st ≡ ok (st', started)
    → All IsOutside started
unfolding station_change
station_change-IsOutside bus station ps st st' started e =
    let ((st1, begun), later, stated) = two_steps (state_changed (lookup "State" ps) st) _ e in
    let (st2, last, scanned) =
      two_steps (when_present (lookup "Scanning" ps) as_bool _ st1) _ later in
    let (st3, ends, joined) =
      two_steps (connected_network bus station (lookup "ConnectedNetwork" ps) st2) _ last in
    subst (λ r. All IsOutside r.1) (ok-injective (st3, begun) (st', started) ends)
      (state_changed-IsOutside (lookup "State" ps) st st1 begun stated)

module _ (P : World → Type 0) (stable : Stable P) where
  pub store_networks-Stable :
      (nets : Option (List Network)) (w : World) → P w → P (store_networks nets w)
  unfolding store_networks
  store_networks-Stable none w v = v
  store_networks-Stable (some nets) w v = modify-Stable P stable _ w v

  refresh_networks-Stable :
      (bus : Bus) (station : String) (w w' : World)
      → refresh_networks bus station w ≡ ok w'
      → P w
      → P w'
  unfolding refresh_networks
  refresh_networks-Stable bus station w w' e v =
      let (nets, ends, fetched) =
        two_steps (fetch_networks bus station (state_of w)) (λ nets. ok (store_networks nets w))
          e in
      subst P (ok-injective (store_networks nets w) w' ends) (store_networks-Stable nets w v)

  pub modify_station-Stable :
      (bus : Bus) (station : String) (ps : Props) (w w' : World)
      → modify_or_panic (station_change bus station ps) w ≡ ok w'
      → P w
      → P w'
  modify_station-Stable bus station ps w w' e v =
      modify_or_panic-Stable P stable (station_change bus station ps) w w' e
        (λ s started given. station_change-IsOutside bus station ps (state_of w) s started given) v

  refresh_if-Stable :
      (b : Bool) (bus : Bus) (station : String) (w w' : World)
      → refresh_if b bus station w ≡ ok w'
      → P w
      → P w'
  unfolding refresh_if
  refresh_if-Stable true bus station w w' e v = refresh_networks-Stable bus station w w' e v
  refresh_if-Stable false bus station w w' e v = subst P (ok-injective w w' e) v

  started_if :
      (b : Bool) (e : Effect) (w : World) → IsOutside e → P w → P (if b then act e w else w)
  started_if true e w outside v = stable.acts e w outside v
  started_if false e w outside v = v

  connected_now-Stable :
      (o : Option Variant) (w w' : World) → connected_now o w ≡ ok w' → P w → P w'
  unfolding connected_now
  connected_now-Stable none w w' e v = subst P (ok-injective w w' e) v
  connected_now-Stable (some x) w w' e v =
      let (text, ends, read) = two_steps (as_string x) _ e in
      subst P (ok-injective _ w' ends) (started_if (text =s= "connected") _ w tt v)

  handle_station_change-Stable :
      (during behind : Bus) (station : String) (ps : Props) (w w' : World)
      → handle_station_change during behind station ps w ≡ ok w'
      → P w
      → P w'
  unfolding handle_station_change
  handle_station_change-Stable during behind station ps w w' e v =
      let (completed, one, seen) = two_steps (scan_completed (lookup "Scanning" ps)) _ e in
      let (w1, two, changed1) =
        two_steps (modify_or_panic (station_change during station ps) w) _ one in
      let (w2, three, refreshed) = two_steps (refresh_if completed behind station w1) _ two in
      connected_now-Stable (lookup "State" ps) w2 w' three (
        refresh_if-Stable completed behind station w1 w2 refreshed
          (modify_station-Stable during station ps w w1 changed1 v))

  handle_device_change-Stable :
      (ps : Props) (w w' : World) → handle_device_change ps w ≡ ok w' → P w → P w'
  unfolding handle_device_change
  handle_device_change-Stable ps w w' e v = modify_state-Stable P stable (device_change ps) w w' e v

  changed-Stable :
      (during behind : Bus) (station iface : String) (ps : Props) (w w' : World)
      → changed during behind station iface ps w ≡ ok w'
      → P w
      → P w'
  unfolding changed
  changed-Stable during behind station iface ps w w' e v =
      elim (Bool-cases (iface =s= station_iface)) [
        | inl is_station ↦
            handle_station_change-Stable during behind station ps w w'
              (rw (is_station, changed) at e) v
        | inr n ↦ elim (Bool-cases (iface =s= device_iface)) [
          | inl is_device ↦ handle_device_change-Stable ps w w' (rw (n, is_device, changed) at e) v
          | inr m ↦ subst P (ok-injective w w' (rw (n, m, changed) at e)) v
        ]
      ]

  property_change-Stable :
      (during behind : Bus) (station : String) (body : List Value) (w w' : World)
      → property_change during behind station body w ≡ ok w'
      → P w
      → P w'
  unfolding property_change
  property_change-Stable during behind station (Value.text iface ∷ Value.props ps ∷ more) w w' e v =
      changed-Stable during behind station iface ps w w' e v
  property_change-Stable during behind station body w w' e v = subst P (ok-injective w w' e) v

  pub handle_property_change-Stable :
      (during behind : Bus) (station : String) (sig : Signal) (w w' : World)
      → handle_property_change during behind station sig w ≡ ok w'
      → P w
      → P w'
  unfolding handle_property_change
  handle_property_change-Stable during behind station sig w w' e v =
      elim (Bool-cases (sig.name =s= "org.freedesktop.DBus.Properties.PropertiesChanged")) [
        | inl is_change ↦
            property_change-Stable during behind station sig.body w w'
              (rw (is_change, handle_property_change) at e) v
        | inr n ↦ subst P (ok-injective w w' (rw (n, handle_property_change) at e)) v
      ]

  pub refresh_known_networks-Stable :
      (bus : Bus) (w w' : World) → refresh_known_networks bus w ≡ ok w' → P w → P w'
  unfolding refresh_known_networks
  refresh_known_networks-Stable bus w w' e v = elim (Option-cases bus.managed_objects) [
    | inl none_there ↦ subst P (ok-injective w w' (rw (none_there, refresh_known_networks) at e)) v
    | inr (objects, there) ↦
        let (names, ends, read) =
          two_steps (known_names objects) (λ names. ok (store_saved names w))
            (rw (there, refresh_known_networks) at e) in
        subst P (ok-injective (store_saved names w) w' ends) (store_saved-Stable P stable names w v)
  ]

  pub after_connected_first-Stable :
      (bus : Bus) (station : String) (w w' : World)
      → after_connected_first bus station w ≡ ok w'
      → P w
      → P w'
  unfolding after_connected_first
  after_connected_first-Stable bus station w w' e v =
      let (w1, ends, known) = two_steps (refresh_known_networks bus w) _ e in
      refresh_networks-Stable bus station w1 w' ends
        (refresh_known_networks-Stable bus w w1 known v)
