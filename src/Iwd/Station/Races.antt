-- ===== src/Iwd/Station/Races.antt =====
-- internal/iwd/client.go: a disconnection beside the other goroutines of the client, a second loop
-- of the property signals and the portal check of a connection.
use x_network.Base.{◌≡◌, refl, String, true, false, [], ◌∷◌, lookup, arith}
use x_network.Base.Outcome.{ok}
use x_network.Variant.{Props, string, as_string, when_present}
use x_network.State.{disconnected, connecting, failed}
use x_network.Runtime.{World, state_of, modify, modify_with, modify_or_panic}
use x_network.Portal.{Web, check_captive_portal}
use x_network.Iwd.Bus.{Bus, Value, Signal, station_iface}
use x_network.Iwd.Client.{connected_network}
use x_network.Iwd.Station.{
  station_state, station_change, handle_station_change, handle_property_change, portal_check_due,
  after_connected_second,
}

abbrev pub disconnection : Props
disconnection = ("State", string "disconnected") ∷ []

-- iwd tells that the station is disconnected, and nothing more.
abbrev pub disconnection_at : String → Signal
disconnection_at path = record {
  name = "org.freedesktop.DBus.Properties.PropertiesChanged";
  path = path;
  body = Value.text station_iface ∷ Value.props disconnection ∷ Value.other ∷ [];
}

handle_property_change-disconnection :
    (during behind : Bus) (station path : String) (w : World)
    → handle_property_change during behind station (disconnection_at path) w
      ≡ ok (modify_with (station_state "disconnected") w)
unfolding handle_property_change handle_station_change station_change station_state
    connected_network when_present modify_or_panic modify_with lookup as_string
handle_property_change-disconnection during behind station path w = refl

-- A station whose authentication fails is disconnected while it is connecting. If the signal is
-- handled twice, as it is once iwd has been restarted, the second time takes the failure back:
-- the state is then "disconnected", beside the error of the failure.
pub failure_lost :
    (during behind during' behind' : Bus) (station path : String) (w : World)
    → (state_of w).connection_state ≡ connecting
    → (w1 : World) × (w2 : World) × (handle_property_change during behind station
          (disconnection_at path)
          w
        ≡ ok w1)
      × (handle_property_change during' behind' station (disconnection_at path) w1 ≡ ok w2)
      × ((state_of w1).connection_state ≡ failed)
      × ((state_of w2).connection_state ≡ disconnected)
      × ((state_of w2).last_error ≡ "Authentication failed")
unfolding station_state modify_with
failure_lost during behind during' behind' station path w trying =
    let w1 = modify_with (station_state "disconnected") w in
    (
      w1,
      modify_with (station_state "disconnected") w1,
      handle_property_change-disconnection during behind station path w,
      handle_property_change-disconnection during' behind' station path w1,
      ground arith,
      ground arith,
      ground arith,
    )

-- A disconnection during the portal check of a connection clears the portal, and the result of
-- the check brings it back: a portal that the check found is then shown with no connection.
pub portal_outlives_connection :
    (web : Web) (ssid : String) (during behind : Bus) (station path : String) (w : World)
    → portal_check_due ssid (state_of w) ≡ true
    → (check_captive_portal web).0 ≡ true
    → let cut = λ (v : World). modify_with (station_state "disconnected") v in
      let s = state_of (after_connected_second web ssid cut w) in
      (handle_property_change during behind station (disconnection_at path) w ≡ ok (cut w))
      × ((state_of (cut w)).captive_portal_detected ≡ false)
      × (s.captive_portal_detected ≡ true)
      × (s.connection_state ≡ disconnected)
      × (s.active_ssid ≡ "")
unfolding station_state after_connected_second modify modify_with
portal_outlives_connection web ssid during behind station path w due found = (
  handle_property_change-disconnection during behind station path w,
  ground arith,
  ground arith,
  ground arith,
  ground arith,
)
