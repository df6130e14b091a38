-- ===== src/Daemon.antt =====
-- cmd/x-network/main.go: the start of the daemon, and the resume from sleep.
pub mod Resume
pub mod System
pub mod Served
pub mod Fallback
pub mod Told
pub mod Shutdown
pub mod Stable
pub mod Unclosed
pub mod Examples
use x_network.Base.{
  ℕ, String, Bool, true, false, not, List, [], ◌∷◌, Option, none, some, ◌=s=◌, if◌then◌else◌,
}
use x_network.Base.Outcome.{Outcome, ok, panic, ◌>>=◌}
use x_network.State.{State}
use x_network.State.Manager.{new_manager}
use x_network.Runtime.{call, go, resume_scan, World, act, modify}
use x_network.Iwd.Bus.{Bus, Value, Signal}
use x_network.Iwd.Client.{Client, new_client}
use x_network.Iwd.Client.Setup.{make_client, close_client, subscribe_to_iwd_lifecycle}
use x_network.Netlink.Link.{Watcher}
use x_network.Netlink.Sockets.{Opened, opened, not_opened, open_watcher, close_watcher}
use x_network.Traffic.{Monitor, stop}
use x_network.Dbus.Service.{Registration, new_service, dropped}

abbrev pub first_world : World
first_world = record { manager = new_manager; effects = [] }

unfoldable pub mark_startup : World → World
mark_startup w = modify (λ st. record st { is_startup = true }) w

-- The client of iwd, if there is a system bus.
unfoldable pub client_of : Option Bus → World → Outcome (Option Client × World)
client_of none w = ok (none, w)
client_of (some bus) w = make_client bus w >>= λ r. ok (some r.0, r.1)

-- Where `NewClient` has its subscriptions, so that the loop of iwd's coming and going runs beside
-- the rest of it.
unfoldable pub subscribed_client : Option Bus → World → Option Client × World
subscribed_client none w = (none, w)
subscribed_client (some bus) w = (some new_client, subscribe_to_iwd_lifecycle bus w)

-- The watcher of the kernel, if its sockets could be opened; it runs as a goroutine.
unfoldable pub watcher_of : World × Opened → World × Option Watcher
watcher_of (w, opened watcher) = (w, some watcher)
watcher_of (w, not_opened e) = (w, none)

-- What `main` has at its end, with the error that ends the program at once.
pub record Started : Type 0 where
  pub client : Option Client
  pub watcher : Option Watcher
  pub world : World
  pub error : Option String

-- `main` up to the waiting, with nothing between the steps of `NewClient` (Daemon/System has what
-- can come between): the watcher and the monitor run as goroutines beside it, and do
-- `meanwhile` before the service is there.
unfoldable pub start_daemon :
    Option Bus
    → (dial rt_dial : Option String) → Registration
    → (meanwhile : World → World) → Outcome Started
unfolding mark_startup client_of watcher_of
start_daemon bus dial rt_dial reg meanwhile = client_of bus (mark_startup first_world) >>= λ r.
    let (w, watcher) = watcher_of (open_watcher dial rt_dial r.1) in
    let (w', err) = new_service reg (meanwhile w) in
    ok (record { client = r.0; watcher = watcher; world = w'; error = err })

close_client_of : Option Client → World → World
close_client_of none w = w
close_client_of (some c) w = close_client c w

close_watcher_of : Option Watcher → World → Outcome World
close_watcher_of none w = ok w
close_watcher_of (some watcher) w = close_watcher watcher w >>= λ r. ok r.1

-- The deferred calls of `main`, the last one first.
unfoldable pub shut_down :
    Option Client → Option Watcher → Monitor → World → Outcome (Monitor × World)
unfolding close_client_of close_watcher_of
shut_down c watcher m w = do
  m' ← stop m
  w' ← close_watcher_of watcher (dropped w)
  ok (m', close_client_of c w')

-- iwdClient != nil
unfoldable pub has_client : Option Client → Bool
has_client none = false
has_client (some c) = true

resumed : ℕ → Bool → World → World
resumed now has_client w =
    let marked =
      modify
        (λ st. record st { was_resumed = true; resume_timestamp = now; weather_triggered = false })
        w in
    if has_client then act (go resume_scan) marked else marked

prepare_for_sleep : ℕ → Bool → List Value → World → World
unfolding resumed
prepare_for_sleep now has_client (Value.flag going_to_sleep ∷ _) w =
    if going_to_sleep then w else resumed now has_client w
prepare_for_sleep now has_client _ w = w

-- A round of the loop of `watchSystemResume`, at a time.
unfoldable pub handle_sleep_signal : ℕ → Bool → Signal → World → World
unfolding prepare_for_sleep
handle_sleep_signal now has_client sig w =
    if sig.name =s= "org.freedesktop.login1.Manager.PrepareForSleep"
    then prepare_for_sleep now has_client sig.body w
    else w

-- The start of `watchSystemResume`: whether the loop runs. The error of either step ends it.
unfoldable pub subscribe_resume : Option Bus → World → World × Bool
subscribe_resume none w = (w, false)
subscribe_resume (some bus) w = (
  act (call "org.freedesktop.DBus" "AddMatch PrepareForSleep" []) w,
  elim (bus.failure "org.freedesktop.DBus" "AddMatch PrepareForSleep") [
    | none ↦ true
    | some e ↦ false
  ],
)

-- The loop, over the signals that come, each at its time.
unfoldable pub watch_resume : Bool → List (ℕ × Signal) → World → World
unfolding handle_sleep_signal
watch_resume with_client [] w = w
watch_resume with_client ((now, sig) ∷ sigs) w =
    watch_resume with_client sigs (handle_sleep_signal now with_client sig w)

unfoldable pub watch_system_resume : Option Bus → Bool → List (ℕ × Signal) → World → World
unfolding subscribe_resume watch_resume
watch_system_resume bus with_client sigs w =
    let (w', runs) = subscribe_resume bus w in if runs then watch_resume with_client sigs w' else w'
