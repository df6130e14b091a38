-- ===== src/Iwd/Client/Setup/Examples.antt =====
-- internal/iwd/client.go: the theorems on the setup and on known networks at concrete inputs.
use x_network.Base.{◌+◌, ◌≡◌, refl, ◌≢◌, inl, inr, true, [], ◌∷◌, Option, none, some, lookup}
use x_network.Base.Outcome.{ok, IsSafe}
use x_network.Variant.{Variant, string, as_string, when_present}
use x_network.State.{initial, disconnected}
use x_network.Runtime.{modify, call, go, initial_networks, World, act, modify_or_panic, modify_with}
use x_network.Fixtures.{world_of, on_wifi, quiet_bus, some_client}
use x_network.Iwd.Bus.{
  Bus, Objects, Value, Signal, station_iface, known_network_iface, properties_set,
}
use x_network.Iwd.Client.{
  Client, new_client, update_station_state, connected_network, initial_connection,
}
use x_network.Iwd.Client.Setup.{
  maybe_init_iwd, find_device, visit_all, visit, store_saved, subscribe_signals, register_with_iwd,
  handle_iwd_disappear, handle_lifecycle,
}
use x_network.Iwd.Client.Setup.Restart.{
  Restarts, before, again, signal_loops, signal_loops-Restarts,
}
use x_network.Iwd.Client.Setup.Typed.{IsTypedIwd}
use x_network.Iwd.Client.Setup.Safety.{handle_lifecycle-IsSafe}
use x_network.Iwd.Known.{forget, set_auto_connect}
use x_network.Iwd.Known.Choice.{forget_method, auto_connect_args, forget_only}

-- iwd shows a station, and knows a network.
abbrev station_bus : Bus
station_bus = record quiet_bus {
  managed_objects = some (
      ("/station", (station_iface, ("State", string "disconnected") ∷ []) ∷ [])
      ∷ ("/home", (known_network_iface, ("Name", string "home") ∷ []) ∷ [])
      ∷ []);
}

station_bus-IsTypedIwd : IsTypedIwd station_bus
unfolding lookup as_string
station_bus-IsTypedIwd =
    ((λ path. tt), ((tt, (("disconnected", refl), tt, tt), tt), ((tt, tt, ("home", refl)), tt)))

-- iwd has come.
abbrev owner_signal : Signal
owner_signal = record {
  name = "org.freedesktop.DBus.NameOwnerChanged";
  path = "/org/freedesktop/DBus";
  body = Value.text "net.connman.iwd" ∷ Value.text "" ∷ Value.text ":1.7" ∷ [];
}

handle_lifecycle-IsSafe_example :
    IsSafe (handle_lifecycle station_bus owner_signal some_client (world_of initial))
handle_lifecycle-IsSafe_example =
    handle_lifecycle-IsSafe station_bus owner_signal some_client (world_of initial)
      station_bus-IsTypedIwd (λ named. tt)

abbrev gone : Client × World
gone = handle_iwd_disappear some_client (world_of on_wifi)

-- The client and the world behind the restart.
abbrev back : Client × World
back = (
  record some_client { device_path = ""; station_path = "/station" },
  act (go initial_networks) (
      register_with_iwd station_bus
        (subscribe_signals station_bus (store_saved ("home" ∷ []) gone.1))),
)

restarted : Restarts some_client (world_of on_wifi) 1 back.0 back.1
unfolding maybe_init_iwd find_device visit_all visit update_station_state modify_or_panic
    modify_with lookup when_present as_string connected_network initial_connection store_saved
    handle_iwd_disappear subscribe_signals register_with_iwd modify
restarted = again {n = 0} station_bus before refl refl

signal_loops-Restarts_example : signal_loops back.1 ≡ signal_loops (world_of on_wifi) + 1
signal_loops-Restarts_example =
    signal_loops-Restarts 1 some_client back.0 (world_of on_wifi) back.1 (λ s. refl) restarted

abbrev two_known : Objects
two_known =
    ("/home2", (known_network_iface, ("Name", string "home2") ∷ []) ∷ [])
    ∷ ("/home", (known_network_iface, ("Name", string "home") ∷ []) ∷ [])
    ∷ []

abbrev known_bus : Bus
known_bus = record quiet_bus { managed_objects = some two_known }

work_is_another : ◌≢◌ {A = Option Variant} (some (string "home2")) (some (string "home"))
work_is_another = λ e. cc

forget_only_example :
    (forget known_bus "home" (world_of on_wifi)
      ≡ ok (act (call "/home" forget_method []) (world_of on_wifi), none))
    × (set_auto_connect known_bus "home" true (world_of on_wifi)
        ≡ ok (act (call "/home" properties_set (auto_connect_args true)) (world_of on_wifi), none))
unfolding lookup
forget_only_example =
    forget_only known_bus "home" "/home" true two_known (world_of on_wifi) refl
      (inr ("home2", refl), (inr ("home", refl), tt)) (inr (inl (refl, refl)))
      (inr work_is_another, (inl refl, tt))

abbrev attached : Client
attached = record new_client { station_path = "/station" }

abbrev found_world : World
found_world =
    store_saved ("home" ∷ [])
      (modify (λ st. record st { connection_state = disconnected }) (world_of initial))
