-- ===== src/Daemon/System.antt =====
-- The daemon as a whole: cmd/x-network/main.go starts the parts, which then share the state, each
-- with goroutines of its own, that take their steps in any order.
use x_network.Base.{ℕ, ◌≡◌, sym, Bool, String, Option, none, some, arith}
use mathlib.Core.Path.{subst}
use x_network.State.Coherent.{IsCoherent, initial-IsCoherent}
use x_network.State.Manager.{new_manager}
use x_network.Runtime.{World, state_of, modify}
use x_network.Sysfs.{Sysfs}
use x_network.Iwd.Bus.{Bus, Signal}
use x_network.Iwd.Client.{Client}
use x_network.Iwd.Client.Setup.{subscribe_to_iwd_lifecycle}
use x_network.Iwd.Steps.{IwdStep, IwdStep-IsCoherent}
use x_network.Netlink.Kernel.{Kernel, Message}
use x_network.Netlink.Link.{Watcher}
use x_network.Netlink.Sockets.{open_watcher}
use x_network.Netlink.Steps.{WatcherStep, WatcherStep-IsCoherent}
use x_network.Netlink.Watch.{handle_raw_message}
use x_network.Netlink.Fetch.{fetch_interfaces, fetch_addresses}
use x_network.Netlink.Kept.{handle_raw_message_keeps, fetch_interfaces_keeps, fetch_addresses_keeps}
use x_network.Netlink.Coherent.{keeps_IsCoherent}
use x_network.Traffic.{Monitor, new_monitor, run, sample}
use x_network.Traffic.Coherent.{sample-IsCoherent}
use x_network.Dbus.Service.{Registration, new_service}
use x_network.Dbus.Steps.{MethodStep, TaskStep, MethodStep-IsCoherent, TaskStep-IsCoherent}
use x_network.Daemon.{
  first_world, mark_startup, subscribed_client, watcher_of, handle_sleep_signal, has_client,
}

-- How far `main` is: in `NewClient`, behind `NewWatcher`, behind `NewService`.
pub data Stage : Type 0 where
  client_starts watcher_tried served : Stage

pub record System : Type 0 where
  pub stage : Stage
  pub client : Option Client
  pub world : World
  pub watcher : Option Watcher
  pub monitor : Monitor

-- `NewClient` has made its subscriptions, if there is a system bus; its attempt to initialize the
-- client comes as steps, beside those of the goroutine that it has started.
pub data IsStarted : System → Type 0 where
  starts :
      (bus : Option Bus)
      → IsStarted (record {
        stage = client_starts;
        client = (subscribed_client bus (mark_startup first_world)).0;
        world = (subscribed_client bus (mark_startup first_world)).1;
        watcher = none;
        monitor = new_monitor;
      })

-- A service that cannot be started ends the program at once, with no deferred call, and has no
-- step. The methods can be called before `NewService` has returned. Goroutines that only run
-- commands change no state, and have no step.
pub data DaemonStep (s : System) : System → Type 0 where
  iwd :
      (c c' : Client) (w' : World)
      → s.client ≡ some c
      → IwdStep c s.world c' w'
      → DaemonStep s (record s { client = some c'; world = w' })
  opens_watcher :
      (dial rt_dial : Option String)
      → s.stage ≡ client_starts
      → DaemonStep s (record s {
        stage = watcher_tried;
        world = (watcher_of (open_watcher dial rt_dial s.world)).0;
        watcher = (watcher_of (open_watcher dial rt_dial s.world)).1;
      })
  registers :
      (r : Registration)
      → s.stage ≡ watcher_tried
      → (new_service r s.world).1 ≡ none
      → DaemonStep s (record s { stage = served; world = (new_service r s.world).0 })
  -- The watcher: an Update alone, or a fetch or a message that runs through.
  watches : (w' : World) → WatcherStep s.world w' → DaemonStep s (record s { world = w' })
  fetches_interfaces : (k : Kernel) → DaemonStep s (record s { world = fetch_interfaces k s.world })
  fetches_addresses : (k : Kernel) → DaemonStep s (record s { world = fetch_addresses k s.world })
  receives :
      (now : ℕ) (k : Kernel) (msg : Message) (watcher : Watcher)
      → s.watcher ≡ some watcher
      → DaemonStep s (record s {
        watcher = some (handle_raw_message now k msg watcher s.world).0;
        world = (handle_raw_message now k msg watcher s.world).1;
      })
  runs_monitor : DaemonStep s (record s { monitor = (run s.monitor).0 })
  samples :
      (fs : Sysfs)
      → DaemonStep s (record s {
        monitor = (sample fs s.monitor s.world).0;
        world = (sample fs s.monitor s.world).1;
      })
  serves : (w' : World) → MethodStep s.client s.world w' → DaemonStep s (record s { world = w' })
  ends_task : (w' : World) → TaskStep s.world w' → DaemonStep s (record s { world = w' })
  sleep_signal :
      (now : ℕ) (sig : Signal)
      → DaemonStep s
          (record s { world = handle_sleep_signal now (has_client s.client) sig s.world })

pub data DaemonReach (s : System) : System → Type 0 where
  here : DaemonReach s s
  next : {t u : System} → DaemonReach s t → DaemonStep t u → DaemonReach s u

mark_startup-IsCoherent : IsCoherent (state_of (mark_startup first_world))
unfolding mark_startup modify new_manager
mark_startup-IsCoherent = let v = initial-IsCoherent in ground arith

subscribe-manager : (bus : Bus) (w : World) → (subscribe_to_iwd_lifecycle bus w).manager ≡ w.manager
unfolding subscribe_to_iwd_lifecycle
subscribe-manager bus w = ground arith

started-IsCoherent : (s : System) → IsStarted s → IsCoherent (state_of s.world)
unfolding subscribed_client
started-IsCoherent s (starts none) = mark_startup-IsCoherent
started-IsCoherent s (starts (some bus)) =
    subst (λ m. IsCoherent m.state) (sym (subscribe-manager bus (mark_startup first_world)))
      mark_startup-IsCoherent

watcher_of-IsCoherent :
    (dial rt_dial : Option String) (w : World)
    → IsCoherent (state_of w)
    → IsCoherent (state_of (watcher_of (open_watcher dial rt_dial w)).0)
unfolding watcher_of open_watcher
watcher_of-IsCoherent none none w v = v
watcher_of-IsCoherent none (some e) w v = v
watcher_of-IsCoherent (some e) rt_dial w v = v

new_service-IsCoherent :
    (r : Registration) (w : World)
    → IsCoherent (state_of w)
    → IsCoherent (state_of (new_service r w).0)
unfolding new_service
new_service-IsCoherent r w v = ground arith

handle_sleep_signal-IsCoherent :
    (now : ℕ) (with_client : Bool) (sig : Signal) (w : World)
    → IsCoherent (state_of w)
    → IsCoherent (state_of (handle_sleep_signal now with_client sig w))
unfolding handle_sleep_signal modify
handle_sleep_signal-IsCoherent now with_client sig w v = ground arith

step-IsCoherent :
    (s t : System) → DaemonStep s t → IsCoherent (state_of s.world) → IsCoherent (state_of t.world)
step-IsCoherent s t (iwd c c' w' e step) v = IwdStep-IsCoherent c s.world c' w' step v
step-IsCoherent s t (opens_watcher dial rt_dial at) v = watcher_of-IsCoherent dial rt_dial s.world v
step-IsCoherent s t (registers r at done) v = new_service-IsCoherent r s.world v
step-IsCoherent s t (watches w' step) v = WatcherStep-IsCoherent s.world w' step v
step-IsCoherent s t (fetches_interfaces k) v =
    fetch_interfaces_keeps IsCoherent keeps_IsCoherent k s.world v
step-IsCoherent s t (fetches_addresses k) v =
    fetch_addresses_keeps IsCoherent keeps_IsCoherent k s.world v
step-IsCoherent s t (receives now k msg watcher there) v =
    handle_raw_message_keeps IsCoherent keeps_IsCoherent now k msg watcher s.world v
step-IsCoherent s t runs_monitor v = v
step-IsCoherent s t (samples fs) v = sample-IsCoherent fs s.monitor s.world v
step-IsCoherent s t (serves w' step) v = MethodStep-IsCoherent s.client s.world w' step v
step-IsCoherent s t (ends_task w' step) v = TaskStep-IsCoherent s.world w' step v
step-IsCoherent s t (sleep_signal now sig) v =
    handle_sleep_signal-IsCoherent now (has_client s.client) sig s.world v

-- From its start on, whatever iwd, the kernel, the clients and the clock do, and in whatever order
-- the parts of the daemon take their steps, the shared state stays coherent: its strengths are
-- percentages, no frequency is known, the connection is never "obtaining", a URL of a portal comes
-- with a portal, a name of a hotspot with a hotspot, and a name and an index of a USB interface
-- and tethering that is available on it only with its detection.
pub reach-IsCoherent :
    (s t : System) → IsStarted s → DaemonReach s t → IsCoherent (state_of t.world)
reach-IsCoherent s t started here = started-IsCoherent s started
reach-IsCoherent s t started (next {t = m} before step) =
    step-IsCoherent m t step (reach-IsCoherent s m started before)
