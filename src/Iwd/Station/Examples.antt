-- ===== src/Iwd/Station/Examples.antt =====
-- internal/iwd/client.go: the theorems on signals, networks and the setup, at concrete inputs.
use x_network.Iwd.Networks.Safety.{IsTypedBus}
use x_network.Iwd.Station.Safety.{handle_property_change-IsSafe}
use x_network.Iwd.Client.Setup.Startup.{maybe_init_iwd_ends}
use x_network.Iwd.Client.Setup.{
  maybe_init_iwd, find_device, visit_all, visit, store_saved, register_with_iwd, subscribe_signals,
}
use x_network.Base.Outcome.{IsSafe, ok}
use x_network.Iwd.Scan.Stored.{asked}
use x_network.Base.{
  ◌≡◌, refl, ◌≢◌, ◌↔◌, ◌⊎◌, inl, inr, Bool, String, true, false, List, [], ◌∷◌, Option, none, some,
  All, map, lookup, ◌=s=◌, if◌then◌else◌, Bool-cases,
}
use x_network.Base.Int.{ℤ, negsuc}
use x_network.Variant.{string, when_present, as_string, boolean, object_path, as_bool, as_path}
use x_network.State.{Network, initial, disconnected, connecting, failed}
use x_network.Runtime.{
  go, state_of, act, initial_networks, modify_or_panic, modify_with, World, modify,
}
use x_network.Portal.{
  Web, Response, check_captive_portal, IsOpen, firefox, check_captive_portal_first,
}
use x_network.Fixtures.{world_of, on_wifi, on_trial, quiet_bus}
use x_network.Iwd.Agent.{Agent, new_agent}
use x_network.State.Signal.{dbm_to_percent}
use x_network.Iwd.Bus.{Bus, Value, Signal, station_iface}
use x_network.Iwd.Client.{new_client, update_station_state, connected_network, initial_connection}
use x_network.Iwd.Networks.{collect, network_of_props}
use x_network.Iwd.Networks.Listing.{readable, IsListed, collect-IsListed}
use x_network.Iwd.Station.{station_state, handle_property_change, after_connected_second}
use x_network.Iwd.Station.Races.{disconnection_at, failure_lost, portal_outlives_connection}
use x_network.Iwd.Station.Transitions.{IsUnnamed, station_state-failed}

station_state-failed_example :
    ((station_state "disconnected" on_trial).0.connection_state ≡ failed) ↔ (
      ((◌≡◌ {A = String} "disconnected" "disconnected") × (on_trial.connection_state ≡ connecting))
      ⊎ (IsUnnamed "disconnected" × (on_trial.connection_state ≡ failed)))
station_state-failed_example = station_state-failed "disconnected" on_trial

abbrev portal_response : Response
portal_response = record { status = 302; redirect = some "http://login"; body = "" }

abbrev portal_web : Web
portal_web = λ url. some portal_response

check_captive_portal_first_example :
    ((check_captive_portal portal_web).0 ≡ false) ↔ IsOpen firefox portal_response
check_captive_portal_first_example =
    check_captive_portal_first portal_web firefox portal_response (inl (refl, refl))

abbrev home_bus : Bus
home_bus = record quiet_bus {
  network_props = λ path.
      if path =s= "/home"
      then some (("Name", string "home") ∷ ("Type", string "psk") ∷ [])
      else none;
}

abbrev home_entries : List (String × ℤ)
home_entries = ("/gone", negsuc 7999) ∷ ("/home", negsuc 5999) ∷ []

-- -60 dBm, the active network.
abbrev home_listed : Network
home_listed = record {
  ssid = "home";
  security = "psk";
  signal_dbm = negsuc 59;
  signal = 80;
  connected = true;
  saved = false;
  frequency = 0;
  object_path = "/home";
}

collect-IsListed_example :
    (map (λ net. net.object_path) (home_listed ∷ []) ≡ readable home_bus home_entries)
    × All (IsListed "home") (home_listed ∷ [])
unfolding collect network_of_props when_present as_string lookup dbm_to_percent
collect-IsListed_example = collect-IsListed home_bus "home" home_entries (home_listed ∷ []) refl

home_bus-IsTypedBus : IsTypedBus home_bus
unfolding lookup as_string
home_bus-IsTypedBus path = elim (Bool-cases (path =s= "/home")) [
  | inl e ↦ rw e (("home", refl), ("psk", refl), tt, tt)
  | inr n ↦ rw n tt
]

-- The station is connected, at the end of a scan.
abbrev connected_signal : Signal
connected_signal = record {
  name = "org.freedesktop.DBus.Properties.PropertiesChanged";
  path = "/net/connman/iwd/0/3";
  body =
      Value.text station_iface
      ∷ Value.props (
          ("State", string "connected")
          ∷ ("Scanning", boolean false)
          ∷ ("ConnectedNetwork", object_path "/home")
          ∷ [])
      ∷ [];
}

handle_property_change-IsSafe_example : IsSafe (
    handle_property_change home_bus home_bus "/net/connman/iwd/0/3" connected_signal
      (world_of on_trial))
unfolding lookup as_string as_bool as_path
handle_property_change-IsSafe_example =
    handle_property_change-IsSafe home_bus home_bus "/net/connman/iwd/0/3" connected_signal
      (world_of on_trial) home_bus-IsTypedBus home_bus-IsTypedBus
      (("connected", refl), (false, refl), ("/home", refl), tt)

-- iwd shows a station.
abbrev station_bus : Bus
station_bus = record quiet_bus {
  managed_objects =
      some (("/station", (station_iface, ("State", string "disconnected") ∷ []) ∷ []) ∷ []);
}

maybe_init_iwd_ends_example :
    let w' =
      act
        (go initial_networks)
        (register_with_iwd station_bus (subscribe_signals station_bus (world_of initial))) in
    ((◌≡◌ {A = Option String} none none)
      × (◌≡◌ {A = Bool} true true)
      × (◌≢◌ {A = String} "/station" "")
      × (◌≡◌ {A = Option Agent} (some new_agent) (some new_agent)))
    ⊎ ((◌≢◌ {A = Option String} none none)
        × (◌≡◌ {A = Bool} true false)
        × ((state_of w').saved_networks ≡ []))
unfolding maybe_init_iwd find_device visit_all visit update_station_state modify_or_panic
    modify_with lookup when_present as_string connected_network initial_connection store_saved
maybe_init_iwd_ends_example =
    maybe_init_iwd_ends station_bus new_client
      (record new_client { station_path = "/station"; initialized = true; agent = some new_agent })
      (world_of initial)
      (act (go initial_networks)
        (register_with_iwd station_bus (subscribe_signals station_bus (world_of initial))))
      none refl refl

abbrev listing_bus : Bus
listing_bus = record home_bus { ordered_networks = λ station. some home_entries }

-- iwd is busy with a scan already: that is no refusal.
abbrev busy_bus : Bus
busy_bus = record listing_bus { failure = λ object method. some "Busy" }

abbrev home_scanned : World
home_scanned =
    modify (λ st. record st { networks = home_listed ∷ [] }) (asked "/station" (world_of on_wifi))

failure_lost_example :
    (w1 : World) × (w2 : World) × (handle_property_change home_bus home_bus "/station"
        (disconnection_at "/station")
        (world_of on_trial)
      ≡ ok w1)
    × (handle_property_change home_bus home_bus "/station" (disconnection_at "/station") w1 ≡ ok w2)
    × ((state_of w1).connection_state ≡ failed)
    × ((state_of w2).connection_state ≡ disconnected)
    × ((state_of w2).last_error ≡ "Authentication failed")
failure_lost_example =
    failure_lost home_bus home_bus home_bus home_bus "/station" "/station" (world_of on_trial) refl

abbrev cut_off : World → World
cut_off w = modify_with (station_state "disconnected") w

portal_found : (check_captive_portal portal_web).0 ≡ true
unfolding check_captive_portal
portal_found = refl

portal_outlives_connection_example :
    let w = world_of on_wifi in
    let s = state_of (after_connected_second portal_web "home" cut_off w) in
    (handle_property_change home_bus home_bus "/station" (disconnection_at "/station") w
      ≡ ok (cut_off w))
    × ((state_of (cut_off w)).captive_portal_detected ≡ false)
    × (s.captive_portal_detected ≡ true)
    × (s.connection_state ≡ disconnected)
    × (s.active_ssid ≡ "")
portal_outlives_connection_example =
    portal_outlives_connection portal_web "home" home_bus home_bus "/station" "/station"
      (world_of on_wifi) refl portal_found
