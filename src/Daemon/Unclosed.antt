-- ===== src/Daemon/Unclosed.antt =====
-- cmd/x-network/main.go: the running daemon closes no connection that it closes at its end.
use mathlib.Core.Path.{subst}
use x_network.Base.{
  String, ◌≡◌, refl, sym, ◌∙◌, ◌≢◌, ◌⊎◌, inl, inr, List, [], ◌∷◌, ◌++◌, Option, none, some, All,
  arith,
}
use x_network.State.{State}
use x_network.State.Manager.{update, announce, set_on_change, new_manager}
use x_network.Runtime.{
  Connection, Effect, emit, properties_changed, call, exec, exec_with, close, go, netlink_socket,
  World, state_of, noted, modify_with,
}
use x_network.Runtime.Stable.{Stable, IsOutside, modify-Stable}
use x_network.Iwd.Client.Setup.Stable.{subscribe_to_iwd_lifecycle-Stable}
use x_network.Iwd.Stable.{IwdStep-Stable}
use x_network.Netlink.Steps.{WatcherStep-Stable}
use x_network.Netlink.Stable.{
  handle_raw_message-Stable, fetch_interfaces-Stable, fetch_addresses-Stable,
}
use x_network.Netlink.Sockets.{open_watcher}
use x_network.Traffic.Stable.{sample-Stable}
use x_network.Dbus.Service.{Registration, on_state_change, new_service}
use x_network.Dbus.Stable.{MethodStep-Stable, TaskStep-Stable}
use x_network.Daemon.{first_world, mark_startup, subscribed_client, watcher_of, has_client}
use x_network.Daemon.System.{
  System, client_starts, IsStarted, starts, DaemonStep, DaemonReach, here, next, iwd, opens_watcher,
  registers, watches, fetches_interfaces, fetches_addresses, receives, runs_monitor, samples,
  serves, ends_task, sleep_signal,
}
use x_network.Daemon.Stable.{handle_sleep_signal-Stable}

abbrev pub IsNotClose : Connection → Effect → Type 0
IsNotClose conn (close c) = c ≢ conn
IsNotClose conn _ = Unit

-- The connection was not closed, and the change callback does not close it.
abbrev pub IsUnclosed : Connection → World → Type 0
IsUnclosed conn w =
    ((w.manager.on_change ≡ none) ⊎ (w.manager.on_change ≡ some on_state_change))
    × All (IsNotClose conn) w.effects

outside-IsNotClose : (conn : Connection) (e : Effect) → IsOutside e → IsNotClose conn e
outside-IsNotClose conn (emit name values) out = tt
outside-IsNotClose conn (call object method args) out = tt
outside-IsNotClose conn (exec command) out = tt
outside-IsNotClose conn (exec_with command input) out = tt
outside-IsNotClose conn (go task) out = tt
outside-IsNotClose conn (close c) out = absurd out
outside-IsNotClose conn (properties_changed props) out = absurd out

outside-AreNotClose :
    (conn : Connection) (begun es : List Effect)
    → All IsOutside begun
    → All (IsNotClose conn) es
    → All (IsNotClose conn) (begun ++ es)
outside-AreNotClose conn [] es out kept = kept
outside-AreNotClose conn (e ∷ begun) es (out, outs) kept =
    (outside-IsNotClose conn e out, outside-AreNotClose conn begun es outs kept)

noted-AreNotClose :
    (conn : Connection) (o : Option (State → Effect)) (s : State) (es : List Effect)
    → (o ≡ none) ⊎ (o ≡ some on_state_change)
    → All (IsNotClose conn) es
    → All (IsNotClose conn) (noted (announce o s) es)
unfolding on_state_change
noted-AreNotClose conn o s es (inl e) kept =
    subst (λ p. All (IsNotClose conn) (noted (announce p s) es)) (sym e) kept
noted-AreNotClose conn o s es (inr e) kept =
    subst (λ p. All (IsNotClose conn) (noted (announce p s) es)) (sym e) (tt, kept)

module _ (conn : Connection) where
  IsUnclosed-Stable : Stable (IsUnclosed conn)
  unfolding modify_with update
  IsUnclosed-Stable = record {
    acts = λ e w out (listens, kept). (listens, (outside-IsNotClose conn e out, kept));
    updates = λ fn w out (listens, kept). (
      listens,
      noted-AreNotClose conn w.manager.on_change (fn (state_of w)).0
          ((fn (state_of w)).1 ++ w.effects) listens
          (outside-AreNotClose conn (fn (state_of w)).1 w.effects out kept),
    );
  }

  mark_startup-IsUnclosed : IsUnclosed conn (mark_startup first_world)
  unfolding mark_startup new_manager
  mark_startup-IsUnclosed =
      modify-Stable (IsUnclosed conn) IsUnclosed-Stable _ first_world (inl refl, tt)

  started-IsUnclosed : (s : System) → IsStarted s → IsUnclosed conn s.world
  unfolding subscribed_client
  started-IsUnclosed s (starts none) = mark_startup-IsUnclosed
  started-IsUnclosed s (starts (some bus)) =
      subscribe_to_iwd_lifecycle-Stable (IsUnclosed conn) IsUnclosed-Stable bus
        (mark_startup first_world) mark_startup-IsUnclosed

  new_service-IsUnclosed :
      (r : Registration) (w : World)
      → (new_service r w).1 ≡ none
      → IsUnclosed conn w
      → IsUnclosed conn (new_service r w).0
  unfolding new_service set_on_change
  new_service-IsUnclosed r w done (listens, kept) = ground arith

  watcher_of-IsUnclosed :
      (dial rt_dial : Option String) (w : World)
      → conn ≢ netlink_socket
      → IsUnclosed conn w
      → IsUnclosed conn (watcher_of (open_watcher dial rt_dial w)).0
  unfolding watcher_of open_watcher
  watcher_of-IsUnclosed none none w other v = v
  watcher_of-IsUnclosed none (some e) w other (listens, kept) =
      (listens, ((λ same. other (sym same)), kept))
  watcher_of-IsUnclosed (some e) rt_dial w other v = v

  step-IsUnclosed :
      (s t : System)
      → DaemonStep s t
      → (conn ≢ netlink_socket) ⊎ (t.stage ≡ s.stage)
      → IsUnclosed conn s.world
      → IsUnclosed conn t.world
  step-IsUnclosed s t (iwd c c' w' e step) h v =
      IwdStep-Stable (IsUnclosed conn) IsUnclosed-Stable c s.world c' w' step v
  step-IsUnclosed s t (opens_watcher dial rt_dial at) (inl other) v =
      watcher_of-IsUnclosed dial rt_dial s.world other v
  step-IsUnclosed s t (opens_watcher dial rt_dial at) (inr same) v =
      absurd (ground (arith, same, at))
  step-IsUnclosed s t (registers r at done) h v = new_service-IsUnclosed r s.world done v
  step-IsUnclosed s t (watches w' step) h v =
      WatcherStep-Stable (IsUnclosed conn) IsUnclosed-Stable s.world w' step v
  step-IsUnclosed s t (fetches_interfaces k) h v =
      fetch_interfaces-Stable (IsUnclosed conn) IsUnclosed-Stable k s.world v
  step-IsUnclosed s t (fetches_addresses k) h v =
      fetch_addresses-Stable (IsUnclosed conn) IsUnclosed-Stable k s.world v
  step-IsUnclosed s t (receives now k msg watcher there) h v =
      handle_raw_message-Stable (IsUnclosed conn) IsUnclosed-Stable now k msg watcher s.world v
  step-IsUnclosed s t runs_monitor h v = v
  step-IsUnclosed s t (samples fs) h v =
      sample-Stable (IsUnclosed conn) IsUnclosed-Stable fs s.monitor s.world v
  step-IsUnclosed s t (serves w' step) h v =
      MethodStep-Stable (IsUnclosed conn) IsUnclosed-Stable s.client s.world w' step v
  step-IsUnclosed s t (ends_task w' step) h v =
      TaskStep-Stable (IsUnclosed conn) IsUnclosed-Stable s.world w' step v
  step-IsUnclosed s t (sleep_signal now sig) h v =
      handle_sleep_signal-Stable (IsUnclosed conn) IsUnclosed-Stable now (has_client s.client) sig
        s.world v

  pub reach-IsUnclosed :
      (s t : System)
      → conn ≢ netlink_socket
      → IsStarted s
      → DaemonReach s t
      → IsUnclosed conn t.world
  reach-IsUnclosed s t other started here = started-IsUnclosed s started
  reach-IsUnclosed s t other started (next {t = m} before step) =
      step-IsUnclosed m t step (inl other) (reach-IsUnclosed s m other started before)

-- The first socket is closed only by a failed `NewWatcher`, which leaves no watcher.
abbrev pub IsSocketKept : System → Type 0
IsSocketKept s =
    IsUnclosed netlink_socket s.world ⊎ ((s.watcher ≡ none) × (s.stage ≢ client_starts))

same_stage-IsSocketKept :
    (s t : System)
    → DaemonStep s t
    → t.stage ≡ s.stage
    → t.watcher ≡ s.watcher
    → IsSocketKept s
    → IsSocketKept t
same_stage-IsSocketKept s t step stage watcher (inl v) =
    inl (step-IsUnclosed netlink_socket s t step (inr stage) v)
same_stage-IsSocketKept s t step stage watcher (inr (gone, behind)) =
    inr (watcher ∙ gone, λ e. behind (sym stage ∙ e))

opening-IsSocketKept :
    (s t : System) (dial rt_dial : Option String)
    → s.stage ≡ client_starts
    → t.stage ≢ client_starts
    → t.world ≡ (watcher_of (open_watcher dial rt_dial s.world)).0
    → t.watcher ≡ (watcher_of (open_watcher dial rt_dial s.world)).1
    → IsSocketKept s
    → IsSocketKept t
unfolding watcher_of open_watcher
opening-IsSocketKept s t dial rt_dial at behind world watcher (inr (gone, late)) = absurd (late at)
opening-IsSocketKept s t none none at behind world watcher (inl v) =
    inl (subst (IsUnclosed netlink_socket) (sym world) v)
opening-IsSocketKept s t none (some e) at behind world watcher (inl v) = inr (watcher, behind)
opening-IsSocketKept s t (some e) rt_dial at behind world watcher (inl v) =
    inl (subst (IsUnclosed netlink_socket) (sym world) v)

step-IsSocketKept : (s t : System) → DaemonStep s t → IsSocketKept s → IsSocketKept t
step-IsSocketKept s t (opens_watcher dial rt_dial at) v =
    opening-IsSocketKept s t dial rt_dial at (λ e. cc) refl refl v
step-IsSocketKept s t (registers r at done) (inl v) =
    inl (new_service-IsUnclosed netlink_socket r s.world done v)
step-IsSocketKept s t (registers r at done) (inr (gone, late)) = inr (gone, λ e. cc)
step-IsSocketKept s t (receives now k msg watcher there) (inl v) = inl (
    handle_raw_message-Stable (IsUnclosed netlink_socket) (IsUnclosed-Stable netlink_socket) now k
      msg watcher s.world v)
step-IsSocketKept s t (receives now k msg watcher there) (inr (gone, late)) =
    absurd (ground (arith, gone, there))
step-IsSocketKept s t (iwd c c' w' e step) v =
    same_stage-IsSocketKept s t (iwd c c' w' e step) refl refl v
step-IsSocketKept s t (watches w' step) v =
    same_stage-IsSocketKept s t (watches w' step) refl refl v
step-IsSocketKept s t (fetches_interfaces k) v =
    same_stage-IsSocketKept s t (fetches_interfaces k) refl refl v
step-IsSocketKept s t (fetches_addresses k) v =
    same_stage-IsSocketKept s t (fetches_addresses k) refl refl v
step-IsSocketKept s t runs_monitor v = same_stage-IsSocketKept s t runs_monitor refl refl v
step-IsSocketKept s t (samples fs) v = same_stage-IsSocketKept s t (samples fs) refl refl v
step-IsSocketKept s t (serves w' step) v = same_stage-IsSocketKept s t (serves w' step) refl refl v
step-IsSocketKept s t (ends_task w' step) v =
    same_stage-IsSocketKept s t (ends_task w' step) refl refl v
step-IsSocketKept s t (sleep_signal now sig) v =
    same_stage-IsSocketKept s t (sleep_signal now sig) refl refl v

pub reach-IsSocketKept : (s t : System) → IsStarted s → DaemonReach s t → IsSocketKept t
reach-IsSocketKept s t started here = inl (started-IsUnclosed netlink_socket s started)
reach-IsSocketKept s t started (next {t = m} before step) =
    step-IsSocketKept m t step (reach-IsSocketKept s m started before)
