-- ===== src/Runtime.antt =====
-- What the daemon's code acts on: the shared state manager, and a record of what it does
-- outside: D-Bus signals and calls, commands, and the goroutines that it starts.
pub mod Effects
pub mod Stable
use mathlib.Core.Path.{subst}
use x_network.Base.{◌≡◌, String, Bool, List, [], ◌∷◌, ◌++◌, Option, none, some}
use x_network.Base.Outcome.{Outcome, ok, ◌>>=◌, ok-injective, two_steps}
use x_network.State.{State}
use x_network.State.Manager.{Manager, update}
use x_network.Variant.{Variant, Props}

-- The `go` statements of the source, with what their functions are given.
pub data Task : Type 0 where
  usb_fallback : (iface : String) → Task
  initial_networks : Task
  signal_loop : Task
  lifecycle_loop : Task
  after_connected : (ssid : String) → Task
  bring_up : (iface : String) → Task
  dhcp : (iface : String) → Task
  fetch_weather : (reason : String) → Task
  resume_scan : Task
  service_scan : Task
  service_connect : (ssid password security : String) (hidden : Bool) → Task
  service_connect_saved : (ssid : String) → Task
  request_usb : (iface : String) → Task
  release_usb : (iface : String) → Task

-- What the daemon opens, and closes at its end.
pub data Connection : Type 0 where
  iwd_bus service_bus netlink_socket rtnetlink_socket : Connection

pub data Effect : Type 0 where
  -- `EmitSignal` of the service, with the signal's name and values, as handed to the bus.
  emit : String → List Variant → Effect
  -- The PropertiesChanged signal of the service, as handed to the bus.
  properties_changed : Props → Effect
  -- A D-Bus method call: the object, the method, the arguments.
  call : (object method : String) → List Variant → Effect
  -- A command that is run and waited for.
  exec : List String → Effect
  -- A command that is given a text on its standard input.
  exec_with : List String → (input : String) → Effect
  close : Connection → Effect
  go : Task → Effect

pub record World : Type 0 where
  pub manager : Manager Effect
  pub effects : List Effect  -- newest first

-- The error of a command, `none` for success.
abbrev pub Shell : Type 0
Shell = List String → Option String

abbrev pub state_of : World → State
state_of w = w.manager.state

abbrev pub act : Effect → World → World
act e w = record w { effects = e ∷ w.effects }

abbrev pub noted : Option Effect → List Effect → List Effect
noted none es = es
noted (some e) es = e ∷ es

-- `stateMgr.Update`, and `Update` with a function that starts goroutines.
unfoldable pub modify_with : (State → State × List Effect) → World → World
unfolding update
modify_with fn w =
    let (s, started) = fn w.manager.state in
    let (m, told) = update (λ _. s) w.manager in
    record { manager = m; effects = noted told (started ++ w.effects) }

unfoldable pub modify : (State → State) → World → World
unfolding modify_with
modify fn w = modify_with (λ s. (fn s, [])) w

-- `Update` with a function that may panic.
unfoldable pub modify_or_panic : (State → Outcome (State × List Effect)) → World → Outcome World
unfolding modify_with
modify_or_panic fn w = fn w.manager.state >>= λ r. ok (modify_with (λ _. r) w)

-- What the function gives has the property, and so has the state behind the Update.
pub modify_or_panic_keeps :
    (P : State → Type 0) (fn : State → Outcome (State × List Effect)) (w w' : World)
    → modify_or_panic fn w ≡ ok w'
    → ((s : State) (started : List Effect) → fn (state_of w) ≡ ok (s, started) → P s)
    → P (state_of w')
unfolding modify_or_panic
modify_or_panic_keeps P fn w w' e gives =
    let ((s, started), ends, given) = two_steps (fn w.manager.state) _ e in
    subst (λ v. P (state_of v)) (ok-injective _ w' ends) (gives s started given)
