-- ===== src/Daemon/Told.antt =====
-- What the service told last, on the daemon as a whole: internal/dbus/service.go with everything
-- that changes the state.
use mathlib.Core.Path.{subst}
use x_network.Base.{
  map, ◌≡◌, refl, ◌⊎◌, inl, inr, ap, sym, ◌∙◌, String, List, [], ◌∷◌, ◌++◌, Option, none, some, All,
  arith,
}
use x_network.Variant.{Props}
use x_network.State.{State}
use x_network.State.Manager.{new_manager, update, announce}
use x_network.Runtime.{Effect, properties_changed, World, state_of, noted, act, modify_with}
use x_network.Runtime.Stable.{Stable, IsOutside, modify-Stable}
use x_network.Iwd.Client.Setup.Stable.{subscribe_to_iwd_lifecycle-Stable}
use x_network.Iwd.Stable.{IwdStep-Stable}
use x_network.Netlink.Steps.{WatcherStep-Stable}
use x_network.Netlink.Stable.{
  handle_raw_message-Stable, fetch_interfaces-Stable, fetch_addresses-Stable,
}
use x_network.Netlink.Sockets.{open_watcher}
use x_network.Traffic.Stable.{sample-Stable}
use x_network.Dbus.Service.{Registration, changed_properties, on_state_change, new_service}
use x_network.Dbus.Announced.{IsCurrent, changed_properties-IsCurrent}
use x_network.Dbus.Stable.{MethodStep-Stable, TaskStep-Stable}
use x_network.Daemon.{first_world, mark_startup, subscribed_client, watcher_of, has_client}
use x_network.Daemon.Stable.{handle_sleep_signal-Stable}
use x_network.Daemon.System.{
  System, IsStarted, starts, DaemonStep, DaemonReach, here, next, iwd, fetches_interfaces,
  fetches_addresses, receives, runs_monitor, samples, registers, opens_watcher, watches, serves,
  ends_task, sleep_signal,
}

-- The values of the newest PropertiesChanged.
abbrev pub last_told : List Effect → Option Props
last_told [] = none
last_told (properties_changed props ∷ es) = some props
last_told (_ ∷ es) = last_told es

-- The service is not there, and has told nothing; or it is, and if it has told anything, the last
-- of it is the state of now.
abbrev IsTold : World → Type 0
IsTold w =
    ((w.manager.on_change ≡ none) × (last_told w.effects ≡ none))
    ⊎ ((w.manager.on_change ≡ some on_state_change)
        × ((last_told w.effects ≡ none)
            ⊎ (last_told w.effects ≡ some (changed_properties (state_of w)))))

last_told-outside :
    (started es : List Effect) → All IsOutside started → last_told (started ++ es) ≡ last_told es
last_told-outside [] es outside = refl
last_told-outside (e ∷ started) es (out, outside) =
    let rest = last_told-outside started es outside in ground arith

acts-IsTold : (e : Effect) (w : World) → IsOutside e → IsTold w → IsTold (act e w)
acts-IsTold e w outside told = ground arith

updates-IsTold :
    (fn : State → State × List Effect) (w : World)
    → All IsOutside (fn (state_of w)).1
    → IsTold w
    → IsTold (modify_with fn w)
unfolding modify_with update on_state_change
updates-IsTold fn w outside (inl (nobody, silent)) =
    let (s, started) = fn (state_of w) in
    inl (
      nobody,
      ap (λ o. last_told (noted (announce o s) (started ++ w.effects))) nobody
          ∙ last_told-outside started w.effects outside
          ∙ silent,
    )
updates-IsTold fn w outside (inr (listens, before)) =
    let (s, started) = fn (state_of w) in
    inr (listens, inr (ap (λ o. last_told (noted (announce o s) (started ++ w.effects))) listens))

IsTold-Stable : Stable IsTold
IsTold-Stable = record { acts = acts-IsTold; updates = updates-IsTold }

mark_startup-IsTold : IsTold (mark_startup first_world)
unfolding mark_startup new_manager
mark_startup-IsTold = modify-Stable IsTold IsTold-Stable _ first_world (inl (refl, refl))

started-IsTold : (s : System) → IsStarted s → IsTold s.world
unfolding subscribed_client
started-IsTold s (starts none) = mark_startup-IsTold
started-IsTold s (starts (some bus)) =
    subscribe_to_iwd_lifecycle-Stable IsTold IsTold-Stable bus (mark_startup first_world)
      mark_startup-IsTold

watcher_of-IsTold :
    (dial rt_dial : Option String) (w : World)
    → IsTold w
    → IsTold (watcher_of (open_watcher dial rt_dial w)).0
unfolding watcher_of open_watcher
watcher_of-IsTold none none w told = told
watcher_of-IsTold none (some e) w told = ground arith
watcher_of-IsTold (some e) rt_dial w told = told

-- The service begins to listen, and announces nothing by that.
new_service-IsTold : (r : Registration) (w : World) → IsTold w → IsTold (new_service r w).0
unfolding new_service
new_service-IsTold r w told = ground arith

step-IsTold : (s t : System) → DaemonStep s t → IsTold s.world → IsTold t.world
step-IsTold s t (iwd c c' w' e step) told =
    IwdStep-Stable IsTold IsTold-Stable c s.world c' w' step told
step-IsTold s t (watches w' step) told =
    WatcherStep-Stable IsTold IsTold-Stable s.world w' step told
step-IsTold s t (fetches_interfaces k) told =
    fetch_interfaces-Stable IsTold IsTold-Stable k s.world told
step-IsTold s t (fetches_addresses k) told =
    fetch_addresses-Stable IsTold IsTold-Stable k s.world told
step-IsTold s t (receives now k msg watcher there) told =
    handle_raw_message-Stable IsTold IsTold-Stable now k msg watcher s.world told
step-IsTold s t runs_monitor told = told
step-IsTold s t (samples fs) told = sample-Stable IsTold IsTold-Stable fs s.monitor s.world told
step-IsTold s t (opens_watcher dial rt_dial at) told = watcher_of-IsTold dial rt_dial s.world told
step-IsTold s t (registers r at done) told = new_service-IsTold r s.world told
step-IsTold s t (serves w' step) told =
    MethodStep-Stable IsTold IsTold-Stable s.client s.world w' step told
step-IsTold s t (ends_task w' step) told = TaskStep-Stable IsTold IsTold-Stable s.world w' step told
step-IsTold s t (sleep_signal now sig) told =
    handle_sleep_signal-Stable IsTold IsTold-Stable now (has_client s.client) sig s.world told

reach-IsTold : (s t : System) → IsStarted s → DaemonReach s t → IsTold t.world
reach-IsTold s t started here = started-IsTold s started
reach-IsTold s t started (next {t = m} before step) =
    step-IsTold m t step (reach-IsTold s m started before)

told-changed :
    (w : World) (props : Props)
    → IsTold w
    → last_told w.effects ≡ some props
    → props ≡ changed_properties (state_of w)
told-changed w props (inl (nobody, silent)) told = ground arith
told-changed w props (inr (listens, inl silent)) told = ground arith
told-changed w props (inr (listens, inr current)) told = ground arith

-- What PropertiesChanged tells of.
abbrev pub told_names : List String
told_names =
    "WifiEnabled" ∷ "WifiScanning" ∷ "ConnectionState" ∷ "ActiveSSID" ∷ "SignalRSSI"
    ∷ "SignalStrength" ∷ "IpAddress" ∷ "Gateway" ∷ "TrafficIn" ∷ "TrafficOut" ∷ "AirplaneMode"
    ∷ "CaptivePortalDetected" ∷ "HotspotActive" ∷ []

changed_properties-names : (st : State) → map (λ p. p.0) (changed_properties st) ≡ told_names
unfolding changed_properties
changed_properties-names st = refl

-- Whatever has happened since the start, the newest PropertiesChanged that the service has tried to
-- emit, if it has tried any, is up to date: it has the thirteen properties of `told_names`, each
-- with the value that GetAll gives now. This is while each change callback runs before the next
-- Update. Whether the bus takes the signal, is not said.
pub last_told-IsCurrent :
    (s t : System) (props : Props)
    → IsStarted s
    → DaemonReach s t
    → last_told t.world.effects ≡ some props
    → (map (λ p. p.0) props ≡ told_names) × All (IsCurrent (state_of t.world)) props
last_told-IsCurrent s t props started reached told =
    let e = told-changed t.world props (reach-IsTold s t started reached) told in
    (
      ap (map (λ p. p.0)) e ∙ changed_properties-names (state_of t.world),
      subst (All (IsCurrent (state_of t.world))) (sym e)
          (changed_properties-IsCurrent (state_of t.world)),
    )
