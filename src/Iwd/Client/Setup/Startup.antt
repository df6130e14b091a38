-- ===== src/Iwd/Client/Setup/Startup.antt =====
-- internal/iwd/client.go: how `maybeInitIWD` ends, with success or with an error.
use x_network.Base.{
  ◌≡◌, refl, ◌≢◌, ◌⊎◌, inl, inr, ◌∙◌, String, true, false, List, [], ◌∷◌, Option, none, some,
  lookup, Option-cases, arith, eq_iff,
}
use x_network.Base.Int.{ℤ}
use x_network.Base.Outcome.{ok, two_steps}
use x_network.Variant.{Variant, Props, as_string, as_bool, as_path, when_present}
use x_network.State.{State}
use x_network.Runtime.{World, state_of, modify_with, modify_or_panic}
use x_network.Iwd.Agent.{new_agent}
use x_network.Iwd.Bus.{Bus, Interfaces, Objects, station_iface, known_network_iface}
use x_network.Iwd.Client.Setup.{
  modify_state, device_in_station, visit_station, visit_device, known_name, conclude, started,
  visit, visit_all, find_device, maybe_init_iwd,
}
use x_network.Iwd.Client.{
  Client, update_device_props, active_signal, fetch_active_signal, fetch_network_details,
  connected_network, update_station_state,
}

update_device_props-saved :
    (ps : Props) (st st' : State)
    → update_device_props ps st ≡ ok st'
    → st'.saved_networks ≡ st.saved_networks
unfolding update_device_props when_present as_string as_bool
update_device_props-saved ps st st' e = ground arith

active_signal-saved :
    (active : String) (nets : List (String × ℤ)) (st : State)
    → (active_signal active nets st).saved_networks ≡ st.saved_networks
unfolding active_signal
active_signal-saved active [] st = refl
active_signal-saved active ((path, rssi) ∷ nets) st =
    ground (arith, active_signal-saved active nets st)

fetch_network_details-saved :
    (bus : Bus) (station path : String) (st st' : State)
    → fetch_network_details bus station path st ≡ ok st'
    → st'.saved_networks ≡ st.saved_networks
unfolding fetch_network_details fetch_active_signal when_present as_string
fetch_network_details-saved bus station path st st' e = grind (arith, active_signal-saved)

connected_network-saved :
    (bus : Bus) (station : String) (o : Option Variant) (st st' : State)
    → connected_network bus station o st ≡ ok st'
    → st'.saved_networks ≡ st.saved_networks
unfolding connected_network as_path
connected_network-saved bus station o st st' e = grind (arith, fetch_network_details-saved)

update_station_state-saved :
    (bus : Bus) (station : String) (ps : Props) (st st' : State)
    → update_station_state bus station ps st ≡ ok st'
    → st'.saved_networks ≡ st.saved_networks
unfolding update_station_state when_present as_string as_bool
update_station_state-saved bus station ps st st' e = grind (arith, connected_network-saved)

-- A round of the loop in `findDevice` leaves these as they were.
abbrev KeepsSaved : Client → World → Client → World → Type 0
KeepsSaved c w c' w' =
    (c'.initialized ≡ c.initialized) × ((state_of w').saved_networks ≡ (state_of w).saved_networks)

device_in_station-KeepsSaved :
    (path : String) (o : Option Props) (c c' : Client) (w w' : World)
    → device_in_station path o (c, w) ≡ ok (c', w')
    → KeepsSaved c w c' w'
unfolding device_in_station modify_or_panic modify_with
device_in_station-KeepsSaved path o c c' w w' e = grind (arith, update_device_props-saved)

modify_station-saved :
    (bus : Bus) (path : String) (ps : Props) (w w' : World)
    → modify_state (update_station_state bus path ps) w ≡ ok w'
    → (state_of w').saved_networks ≡ (state_of w).saved_networks
unfolding modify_or_panic modify_with
modify_station-saved bus path ps w w' e = grind (arith, update_station_state-saved)

visit_station-KeepsSaved :
    (bus : Bus) (path : String) (ifaces : Interfaces) (o : Option Props) (c c' : Client)
    (w w' : World)
    → visit_station bus path ifaces o (c, w) ≡ ok (c', w')
    → KeepsSaved c w c' w'
unfolding visit_station
visit_station-KeepsSaved bus path ifaces o c c' w w' e =
    grind (arith, device_in_station-KeepsSaved, modify_station-saved)

visit_device-KeepsSaved :
    (path : String) (ifaces : Interfaces) (c c' : Client) (w w' : World)
    → visit_device path ifaces (c, w) ≡ ok (c', w')
    → KeepsSaved c w c' w'
unfolding visit_device
visit_device-KeepsSaved path ifaces c c' w w' e = grind (arith, device_in_station-KeepsSaved)

visit-KeepsSaved :
    (bus : Bus) (object : String × Interfaces) (c c' : Client) (w w' : World)
    (names names' : List String)
    → visit bus object (c, w, names) ≡ ok (c', w', names')
    → KeepsSaved c w c' w'
unfolding visit
visit-KeepsSaved bus (path, ifaces) c c' w w' names names' e =
    let ((c1, w1), later, at_station) =
      two_steps (visit_station bus path ifaces (lookup station_iface ifaces) (c, w)) _ e in
    let ((c2, w2), last, at_device) = two_steps (visit_device path ifaces (c1, w1)) _ later in
    let (names2, ends, named) =
      two_steps (known_name (lookup known_network_iface ifaces) names) (λ ns. ok (c2, w2, ns))
        last in
    let (init, saved) = visit_station-KeepsSaved bus path ifaces _ c c1 w w1 at_station in
    let (init', saved') = visit_device-KeepsSaved path ifaces c1 c2 w1 w2 at_device in (cc, cc)

visit_all-KeepsSaved :
    (bus : Bus) (objects : Objects) (c c' : Client) (w w' : World) (names names' : List String)
    → visit_all bus objects (c, w, names) ≡ ok (c', w', names')
    → KeepsSaved c w c' w'
unfolding visit_all
visit_all-KeepsSaved bus [] c c' w w' names names' e = (cc, cc)
visit_all-KeepsSaved bus (object ∷ objects) c c' w w' names names' e =
    let ((c1, w1, names1), later, now) =
      two_steps (visit bus object (c, w, names)) (λ f. visit_all bus objects f) e in
    let (init, saved) = visit-KeepsSaved bus object c c1 w w1 names names1 now in
    let (init', saved') = visit_all-KeepsSaved bus objects c1 c' w1 w' names1 names' later in
    (init' ∙ init, saved' ∙ saved)

-- With a station, or with an error and nothing of it in the saved networks.
abbrev Ends : Client → World → Client → World → Option String → Type 0
Ends c w c' w' err = ((err ≡ none) × (c'.station_path ≢ "")) ⊎ ((err ≢ none) × KeepsSaved c w c' w')

conclude-Ends :
    (names : List String) (c c1 c' : Client) (w w1 w' : World) (err : Option String)
    → KeepsSaved c w c1 w1
    → ok (conclude (c1, w1, names)) ≡ ok (c', w', err)
    → Ends c w c' w' err
unfolding conclude
conclude-Ends names c c1 c' w w1 w' err kept e = ground (arith, eq_iff c1.station_path "")

find_device-Ends :
    (bus : Bus) (c c' : Client) (w w' : World) (err : Option String)
    → find_device bus c w ≡ ok (c', w', err)
    → Ends c w c' w' err
unfolding find_device
find_device-Ends bus c c' w w' err e = elim (Option-cases bus.managed_objects) [
  | inl none_there ↦ ground arith
  | inr (objects, there) ↦
      let ((c1, w1, names), ends, all) =
        two_steps (visit_all bus objects (c, w, [])) (λ f. ok (conclude f))
          (rw (there, find_device) at e) in
      conclude-Ends names c c1 c' w w1 w' err
        (visit_all-KeepsSaved bus objects c c1 w w1 [] names all) ends
]

started-Ends :
    (bus : Bus) (c c1 c' : Client) (w w1 w' : World) (err1 err : Option String)
    → c.initialized ≡ false
    → Ends c w c1 w1 err1
    → ok (started bus (c1, w1, err1)) ≡ ok (c', w', err)
    → ((err ≡ none)
        × (c'.initialized ≡ true)
        × (c'.station_path ≢ "")
        × (c'.agent ≡ some new_agent))
      ⊎ ((err ≢ none)
          × (c'.initialized ≡ false)
          × ((state_of w').saved_networks ≡ (state_of w).saved_networks))
unfolding started
started-Ends bus c c1 c' w w1 w' none err fresh ends e = ground arith
started-Ends bus c c1 c' w w1 w' (some e1) err fresh ends e = ground arith

-- An attempt to initialize a fresh client, if no property has a type that panics, has either
-- found a station, with the client initialized and an agent with no passwords, or ends with an
-- error: then the client is as uninitialized as before, and the saved networks are the ones from
-- before, whatever objects were seen.
pub maybe_init_iwd_ends :
    (bus : Bus) (c c' : Client) (w w' : World) (err : Option String)
    → c.initialized ≡ false
    → maybe_init_iwd bus c w ≡ ok (c', w', err)
    → ((err ≡ none)
        × (c'.initialized ≡ true)
        × (c'.station_path ≢ "")
        × (c'.agent ≡ some new_agent))
      ⊎ ((err ≢ none)
          × (c'.initialized ≡ false)
          × ((state_of w').saved_networks ≡ (state_of w).saved_networks))
unfolding maybe_init_iwd
maybe_init_iwd_ends bus c c' w w' err fresh e =
    let ((c1, w1, err1), ends, found) =
      two_steps (find_device bus c w) (λ r. ok (started bus r)) (rw (fresh, maybe_init_iwd) at e) in
    started-Ends bus c c1 c' w w1 w' err1 err fresh (find_device-Ends bus c c1 w w1 err1 found) ends
