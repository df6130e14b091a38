-- ===== src/Iwd/Client/Setup.antt =====
-- internal/iwd/client.go: `findDevice`, `maybeInitIWD`, `handleIWDDisappear` and the signals of
-- iwd's coming and going.
pub mod Lifecycle
pub mod Restart
pub mod Races
pub mod Examples
pub mod Unused
pub mod Typed
pub mod Safety
pub mod Stable
pub mod Kept
pub mod Coherent
pub mod Startup
use x_network.Base.{
  String, true, false, not, ◌&&◌, List, [], ◌∷◌, ◌++◌, Option, none, some, lookup, ◌=s=◌, ◌<>◌,
  if◌then◌else◌,
}
use x_network.Base.Outcome.{Outcome, ok, panic, ◌>>=◌}
use x_network.Variant.{object_path, Props, as_string}
use x_network.State.{State, disconnected}
use x_network.Runtime.{
  call, close, iwd_bus, go, initial_networks, signal_loop, lifecycle_loop, World, act, modify,
  modify_or_panic,
}
use x_network.Iwd.Agent.{agent_path, new_agent}
use x_network.Iwd.Bus.{
  Bus, Interfaces, Objects, Value, text, interfaces, Signal, station_iface, device_iface,
  known_network_iface,
}
use x_network.Iwd.Client.{Client, new_client, update_device_props, update_station_state}

-- An Update whose closure starts nothing, but may panic.
abbrev pub modify_state : (State → Outcome State) → World → Outcome World
modify_state fn w = modify_or_panic (λ st. fn st >>= λ s. ok (s, [])) w

-- The client, the world, and the names of the known networks found so far.
abbrev pub Found : Type 0
Found = Client × World × List String

device_in_station : String → Option Props → Client × World → Outcome (Client × World)
device_in_station path none (c, w) = ok (c, w)
device_in_station path (some props) (c, w) =
    modify_state (update_device_props props) w >>= λ w'. ok (record c { device_path = path }, w')

visit_station : Bus → String → Interfaces → Option Props → Client × World → Outcome (Client × World)
unfolding device_in_station
visit_station bus path ifaces none (c, w) = ok (c, w)
visit_station bus path ifaces (some props) (c, w) = do
  (c', w') ←
      device_in_station path (lookup device_iface ifaces) (record c { station_path = path }, w)
  modify_state (update_station_state bus path props) w' >>= λ w''. ok (c', w'')

-- For a device at a path of its own.
visit_device : String → Interfaces → Client × World → Outcome (Client × World)
unfolding device_in_station
visit_device path ifaces (c, w) =
    if c.device_path =s= ""
    then device_in_station path (lookup device_iface ifaces) (c, w)
    else ok (c, w)

known_name : Option Props → List String → Outcome (List String)
known_name none saved = ok saved
known_name (some props) saved = elim (lookup "Name" props) [
  | none ↦ ok saved
  | some v ↦ as_string v >>= λ ssid. ok (saved ++ ssid ∷ [])
]

-- A round of the loop over the objects.
unfoldable pub visit : Bus → String × Interfaces → Found → Outcome Found
unfolding visit_station visit_device known_name
visit bus (path, ifaces) (c, w, saved) = do
  (c, w) ← visit_station bus path ifaces (lookup station_iface ifaces) (c, w)
  (c, w) ← visit_device path ifaces (c, w)
  saved ← known_name (lookup known_network_iface ifaces) saved
  ok (c, w, saved)

unfoldable pub visit_all : Bus → Objects → Found → Outcome Found
visit_all bus [] found = ok found
visit_all bus (object ∷ objects) found = visit bus object found >>= λ f. visit_all bus objects f

unfoldable pub store_saved : List String → World → World
store_saved [] w = w
store_saved (ssid ∷ saved) w = modify (λ st. record st { saved_networks = ssid ∷ saved }) w

conclude : Found → Client × World × Option String
unfolding store_saved
conclude (c, w, saved) =
    if c.station_path =s= ""
    then (c, w, some "no WiFi station found")
    else (c, store_saved saved w, none)

-- The error that is returned is the last part.
unfoldable pub find_device : Bus → Client → World → Outcome (Client × World × Option String)
unfolding visit_all conclude
find_device bus c w = elim bus.managed_objects [
  | none ↦ ok (c, w, some ("failed to get managed objects: " <> bus.managed_objects_error))
  | some objects ↦ visit_all bus objects (c, w, []) >>= λ found. ok (conclude found)
]

-- A failed subscription starts no loop; the error is only logged.
unfoldable pub subscribe_signals : Bus → World → World
subscribe_signals bus w = elim (bus.failure "org.freedesktop.DBus" "AddMatch PropertiesChanged") [
  | none ↦
      act (go signal_loop) (act (call "org.freedesktop.DBus" "AddMatch PropertiesChanged" []) w)
  | some e ↦ act (call "org.freedesktop.DBus" "AddMatch PropertiesChanged" []) w
]

-- `RegisterWithIWD` of the new agent. A failed export ends it before the call; an error of
-- either is only logged.
unfoldable pub register_with_iwd : Bus → World → World
register_with_iwd bus w = elim (bus.failure agent_path "Export") [
  | some e ↦ w
  | none ↦
      act
        (call "/net/connman/iwd" "net.connman.iwd.AgentManager.RegisterAgent"
          (object_path agent_path ∷ []))
        w
]

unfoldable pub started : Bus → Client × World × Option String → Client × World × Option String
unfolding subscribe_signals register_with_iwd
started bus (c, w, some e) = (c, w, some e)
started bus (c, w, none) = (
  record c { agent = some new_agent; initialized = true },
  act (go initial_networks) (register_with_iwd bus (subscribe_signals bus w)),
  none,
)

unfoldable pub maybe_init_iwd : Bus → Client → World → Outcome (Client × World × Option String)
unfolding started
maybe_init_iwd bus c w = elim c.initialized [
  | true ↦ ok (c, w, none)
  | false ↦ find_device bus c w >>= λ r. ok (started bus r)
]

-- `handleIWDDisappear`: the fields of the client, and the closure of its Update.
abbrev pub detached : Client → Client
detached c = record c { initialized = false; device_path = ""; station_path = "" }

abbrev pub gone : State → State
gone st = record st {
  wifi_enabled = false;
  wifi_scanning = false;
  connection_state = disconnected;
  active_ssid = "";
  signal_strength = 0;
}

-- The signal subscriptions of the first client stay as they are.
unfoldable pub handle_iwd_disappear : Client → World → Client × World
handle_iwd_disappear c w = (detached c, modify gone w)

-- An error of `maybeInitIWD` is only logged.
abbrev tried : Client × World × Option String → Client × World
tried (c, w, e) = (c, w)

-- `subscribeToIWDLifecycle`: without the first subscription there is no loop.
unfoldable pub subscribe_to_iwd_lifecycle : Bus → World → World
subscribe_to_iwd_lifecycle bus w =
    let asked = act (call "org.freedesktop.DBus" "AddMatch NameOwnerChanged" []) w in
    elim (bus.failure "org.freedesktop.DBus" "AddMatch NameOwnerChanged") [
      | some e ↦ asked
      | none ↦
          act (go lifecycle_loop)
            (act (call "org.freedesktop.DBus" "AddMatch InterfacesAdded" []) asked)
    ]

-- `NewClient`, once there is a system bus. No failure of the rest is fatal.
unfoldable pub make_client : Bus → World → Outcome (Client × World)
unfolding subscribe_to_iwd_lifecycle maybe_init_iwd
make_client bus w =
    maybe_init_iwd bus new_client (subscribe_to_iwd_lifecycle bus w) >>= λ r. ok (tried r)

-- NameOwnerChanged, with the three values of its body.
owner_changed :
    Bus → (name old_owner new_owner : String) → Client → World → Outcome (Client × World)
owner_changed bus name old_owner new_owner c w = elim (name =s= "net.connman.iwd") [
  | false ↦ ok (c, w)
  | true ↦ elim (old_owner =s= "" && not (new_owner =s= "")) [
    | true ↦ maybe_init_iwd bus c w >>= λ r. ok (tried r)
    | false ↦ elim (not (old_owner =s= "") && new_owner =s= "") [
      | true ↦ ok (handle_iwd_disappear c w)
      | false ↦ ok (c, w)
    ]
  ]
]

as_text : Value → Outcome String
as_text (text s) = ok s
as_text _ = panic

name_owner_changed : Bus → List Value → Client → World → Outcome (Client × World)
unfolding owner_changed as_text
name_owner_changed bus (a ∷ b ∷ d ∷ []) c w = do
  name ← as_text a
  old_owner ← as_text b
  new_owner ← as_text d
  owner_changed bus name old_owner new_owner c w
name_owner_changed bus _ c w = ok (c, w)

interfaces_added : Bus → List Value → Client → World → Outcome (Client × World)
interfaces_added bus (_ ∷ interfaces ifaces ∷ _) c w = elim (lookup station_iface ifaces) [
  | none ↦ ok (c, w)
  | some _ ↦ maybe_init_iwd bus c w >>= λ r. ok (tried r)
]
interfaces_added bus _ c w = ok (c, w)

-- A round of the goroutine of `subscribeToIWDLifecycle`.
unfoldable pub handle_lifecycle : Bus → Signal → Client → World → Outcome (Client × World)
unfolding name_owner_changed interfaces_added
handle_lifecycle bus sig c w =
    if sig.name =s= "org.freedesktop.DBus.NameOwnerChanged"
    then name_owner_changed bus sig.body c w
    else (if sig.name =s= "org.freedesktop.DBus.ObjectManager.InterfacesAdded"
        then interfaces_added bus sig.body c w
        else ok (c, w))

-- `Close`
unfoldable pub close_client : Client → World → World
close_client c w = act (close iwd_bus) w
