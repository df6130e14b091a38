-- ===== src/Iwd/Station/Transitions.antt =====
-- internal/iwd/client.go: what a change of the station does to the connection in the state.
use x_network.Base.{◌≡◌, ◌≢◌, ◌↔◌, ◌⊎◌, String, true, false, [], ◌∷◌, arith, eq_iff, eq_refl}
use x_network.State.{State, disconnected, connecting, connected, failed}
use x_network.Runtime.{go, usb_fallback, World, state_of, modify}
use x_network.Portal.{Web, check_captive_portal}
use x_network.Iwd.Station.{station_state, portal_check_due, after_connected_second}

-- A state of the station that the switch does not name.
abbrev pub IsUnnamed : String → Type 0
IsUnnamed text =
    (text ≢ "disconnected") × (text ≢ "connecting") × (text ≢ "connected") × (text ≢ "roaming")

-- The connection is failed exactly if the station went from connecting to disconnected, or if it
-- was failed and the station's new state is none that the switch names.
pub station_state-failed :
    (text : String) (st : State)
    → ((station_state text st).0.connection_state ≡ failed) ↔ (
        ((text ≡ "disconnected") × (st.connection_state ≡ connecting))
        ⊎ (IsUnnamed text × (st.connection_state ≡ failed)))
unfolding station_state
station_state-failed text st = ground (
  arith,
  eq_iff text "disconnected",
  eq_iff text "connecting",
  eq_iff text "connected",
  eq_iff text "roaming",
)

-- The fallback to the USB interface is started exactly when a connected station is disconnected
-- while tethering is available on a named interface, and on that interface.
station_state-fallback :
    (text : String) (st : State)
    → ((station_state text st).1 ≡ go (usb_fallback st.usb_interface_name) ∷ []) ↔ (
        (text ≡ "disconnected")
        × (st.connection_state ≡ connected)
        × (st.usb_tethering_available ≡ true)
        × (st.usb_interface_name ≢ ""))
unfolding station_state
station_state-fallback text st =
    ground (arith, eq_iff text "disconnected", eq_iff st.usb_interface_name "")

-- A signal that is handled a second time, as by the loop of an earlier connection to iwd, takes
-- the failure back: clients see "disconnected" instead.
pub station_state_repeated :
    (st : State)
    → st.connection_state ≡ connecting
    → ((station_state "disconnected" st).0.connection_state ≡ failed)
      × ((station_state "disconnected" (station_state "disconnected" st).0).0.connection_state
          ≡ disconnected)
unfolding station_state
station_state_repeated st h = ground arith

-- After a disconnection the next connection, to a network of any name but the empty one, is due
-- for a check, whatever was checked before.
pub portal_check_due_again :
    (ssid : String) (st : State)
    → ssid ≢ ""
    → portal_check_due ssid
        (record (station_state "connected" (station_state "disconnected" st).0).0 {
          active_ssid = ssid;
        })
      ≡ true
unfolding station_state
portal_check_due_again ssid st n = ground (arith, eq_refl ssid, eq_iff "" ssid)

-- A check that was made is not due again, if nothing else has happened.
pub portal_check_once :
    (web : Web) (ssid : String) (w : World)
    → portal_check_due ssid (state_of (after_connected_second web ssid (λ v. v) w)) ≡ false
unfolding after_connected_second modify
portal_check_once web ssid w = ground (arith, eq_refl ssid)

-- But the result is stored whatever has happened during the check: also after the station has
-- changed to another network, or lost its connection.
pub portal_check_stale :
    (web : Web) (ssid : String) (meanwhile : World → World) (w : World)
    → portal_check_due ssid (state_of w) ≡ true
    → let s = state_of (after_connected_second web ssid meanwhile w) in
      (s.captive_portal_detected ≡ (check_captive_portal web).0)
      × (s.captive_portal_url ≡ (check_captive_portal web).1)
      × (s.last_captive_check_ssid ≡ ssid)
      × (s.active_ssid ≡ (state_of (meanwhile w)).active_ssid)
      × (s.connection_state ≡ (state_of (meanwhile w)).connection_state)
unfolding after_connected_second modify
portal_check_stale web ssid meanwhile w due = ground arith
