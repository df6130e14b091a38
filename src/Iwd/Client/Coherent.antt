-- ===== src/Iwd/Client/Coherent.antt =====
-- internal/iwd/client.go: what is read of the device, the station and the network in use keeps the
-- state coherent.
use x_network.Base.{
  ◌≡◌, String, List, [], ◌∷◌, Option, none, some, lookup, arith, ◌=s=◌, Bool-cases, inl, inr,
}
use mathlib.Core.Path.{subst}
use x_network.Base.Int.{ℤ}
use x_network.Base.Outcome.{ok, ok-injective, two_steps}
use x_network.Variant.{
  Variant, Props, as_string, as_bool, as_path, when_present, when_present_keeps,
}
use x_network.State.{State}
use x_network.State.Signal.{dbm_to_percent_le}
use x_network.State.Coherent.{IsCoherent}
use x_network.Iwd.Bus.{Bus}
use x_network.Iwd.Client.{
  update_device_props, active_signal, fetch_active_signal, details, fetch_network_details,
  connected_network, update_station_state, initial_connection,
}

pub update_device_props-IsCoherent :
    (ps : Props) (st st' : State)
    → update_device_props ps st ≡ ok st'
    → IsCoherent st
    → IsCoherent st'
unfolding update_device_props when_present as_string as_bool
update_device_props-IsCoherent ps st st' e v = ground arith

active_signal-IsCoherent :
    (active : String) (nets : List (String × ℤ)) (st : State)
    → IsCoherent st
    → IsCoherent (active_signal active nets st)
unfolding active_signal
active_signal-IsCoherent active [] st v = v
active_signal-IsCoherent active ((path, rssi) ∷ nets) st v =
    let later = active_signal-IsCoherent active nets st v in grind (arith, dbm_to_percent_le)

fetch_active_signal-IsCoherent :
    (bus : Bus) (station active : String) (st : State)
    → IsCoherent st
    → IsCoherent (fetch_active_signal bus station active st)
unfolding fetch_active_signal
fetch_active_signal-IsCoherent bus station active st v = grind (arith, active_signal-IsCoherent)

details-IsCoherent :
    (bus : Bus) (station path : String) (o : Option Props) (st st' : State)
    → details bus station path o st ≡ ok st'
    → IsCoherent st
    → IsCoherent st'
unfolding details
details-IsCoherent bus station path none st st' e v = subst IsCoherent (ok-injective st st' e) v
details-IsCoherent bus station path (some ps) st st' e v =
    let (st1, later, named) = two_steps (when_present (lookup "Name" ps) as_string _ st) _ e in
    let (st2, last, typed) = two_steps (when_present (lookup "Type" ps) as_string _ st1) _ later in
    let v1 =
      when_present_keeps IsCoherent (lookup "Name" ps) as_string _ st named (λ a h. ground arith)
        v in
    let v2 =
      when_present_keeps IsCoherent (lookup "Type" ps) as_string _ st1 typed (λ a h. ground arith)
        v1 in
    subst IsCoherent (ok-injective _ st' last)
      (fetch_active_signal-IsCoherent bus station path st2 v2)

pub fetch_network_details-IsCoherent :
    (bus : Bus) (station path : String) (st st' : State)
    → fetch_network_details bus station path st ≡ ok st'
    → IsCoherent st
    → IsCoherent st'
unfolding fetch_network_details
fetch_network_details-IsCoherent bus station path st st' e v = elim (Bool-cases (path =s= "")) [
  | inl none_there ↦
      subst IsCoherent (ok-injective st st' (rw (none_there, fetch_network_details) at e)) v
  | inr there ↦
      details-IsCoherent bus station path (bus.network_props path) st st'
        (rw (there, fetch_network_details) at e) v
]

pub connected_network-IsCoherent :
    (bus : Bus) (station : String) (o : Option Variant) (st st' : State)
    → connected_network bus station o st ≡ ok st'
    → IsCoherent st
    → IsCoherent st'
unfolding connected_network
connected_network-IsCoherent bus station none st st' e v =
    subst IsCoherent (ok-injective st st' e) v
connected_network-IsCoherent bus station (some x) st st' e v =
    let (path, ends, read) = two_steps (as_path x) _ e in
    fetch_network_details-IsCoherent bus station path st st' ends v

initial_connection-IsCoherent :
    (text : String) (st : State)
    → IsCoherent st
    → IsCoherent (record st { connection_state = initial_connection text st.connection_state })
unfolding initial_connection
initial_connection-IsCoherent text st v = ground arith

pub update_station_state-IsCoherent :
    (bus : Bus) (station : String) (ps : Props) (st st' : State)
    → update_station_state bus station ps st ≡ ok st'
    → IsCoherent st
    → IsCoherent st'
unfolding update_station_state
update_station_state-IsCoherent bus station ps st st' e v =
    let (st1, later, stated) = two_steps (when_present (lookup "State" ps) as_string _ st) _ e in
    let (st2, last, scanned) =
      two_steps (when_present (lookup "Scanning" ps) as_bool _ st1) _ later in
    let v1 =
      when_present_keeps IsCoherent (lookup "State" ps) as_string _ st stated
        (λ a h. initial_connection-IsCoherent a st h) v in
    let v2 =
      when_present_keeps IsCoherent (lookup "Scanning" ps) as_bool _ st1 scanned
        (λ a h. ground arith) v1 in
    connected_network-IsCoherent bus station (lookup "ConnectedNetwork" ps) st2 st' last v2
