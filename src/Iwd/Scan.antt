-- ===== src/Iwd/Scan.antt =====
-- internal/iwd/client.go: `Scan`.
pub mod Stored
pub mod Listening
use x_network.Base.{
  String, Bool, true, false, not, ◌&&◌, ◌||◌, List, [], ◌∷◌, Option, none, some, lookup, ◌=s=◌,
  if◌then◌else◌, contains,
}
use x_network.Base.Outcome.{Outcome, ok, ◌>>=◌}
use x_network.Variant.{Variant, boolean}
use x_network.State.{Network}
use x_network.Runtime.{call, World, state_of, act}
use x_network.Iwd.Bus.{Bus, Value, Signal, station_iface}
use x_network.Iwd.Networks.{fetch_networks, store_networks}

-- The value of "Scanning", if it is a bool: this type assertion does not panic.
is_false : Option Variant → Bool
is_false (some (boolean b)) = not b
is_false _ = false

scan_ends : List Value → Bool
unfolding is_false
scan_ends (Value.text iface ∷ Value.props changed ∷ _) =
    iface =s= station_iface && is_false (lookup "Scanning" changed)
scan_ends _ = false

-- Whether the goroutine takes a signal for the end of the scan of this station.
unfoldable pub ends_scan : String → Signal → Bool
unfolding scan_ends
ends_scan station sig =
    sig.name =s= "org.freedesktop.DBus.Properties.PropertiesChanged"
    && sig.path =s= station
    && scan_ends sig.body

-- The goroutine: whether the end is among the signals that come, and then its deferred calls. It
-- goes on after the timeout.
unfoldable pub scan_listener : String → List Signal → World → World × Bool
unfolding ends_scan
scan_listener station [] w = (w, false)
scan_listener station (sig ∷ sigs) w =
    let rest = scan_listener station sigs w in
    if ends_scan station sig
    then (act (call "org.freedesktop.DBus" "RemoveMatch scan" []) w, true)
    else rest

-- An error that says "Busy" does not matter: a scan is under way then.
abbrev pub scan_refused : Option String → Option String
scan_refused none = none
scan_refused (some e) = if contains e "Busy" then none else some e

-- From the wait on, with iwd at the first and at the second request of the networks. While it
-- waits for the end or the timeout, the other goroutines do `meanwhile`, and while it waits for
-- the second request, `then_meanwhile`. That one is made if the first fails or brings no network.
scan_wait :
    (first second : Bus)
    → String
    → (meanwhile then_meanwhile : World → World) → World
    → Outcome (World × Option (List Network))
unfolding fetch_networks store_networks
scan_wait first second station meanwhile then_meanwhile w =
    let waited = meanwhile w in
    let later = then_meanwhile waited in
    let retried = fetch_networks second station (state_of later) >>= λ nets.
    ok (store_networks nets later, nets) in
    fetch_networks first station (state_of waited) >>= elim [
      | none ↦ retried
      | some [] ↦ retried
      | some (net ∷ nets) ↦ ok (store_networks (some (net ∷ nets)) waited, some (net ∷ nets))
    ]

-- What `Scan` returns: the networks (`none` is nil) and the error, with the world.
abbrev pub ScanResult : Type 0
ScanResult = World × Option (List Network) × Option String

-- A refusal is returned before the wait.
abbrev scan_result :
    Option String → World → Outcome (World × Option (List Network)) → Outcome ScanResult
scan_result (some e) asked waited = ok (asked, none, some e)
scan_result none asked waited = waited >>= λ r. ok (r.0, r.1, none)

unfoldable pub scan :
    (at_call first second : Bus)
    → String
    → (meanwhile then_meanwhile : World → World) → World
    → Outcome ScanResult
unfolding scan_wait
scan at_call first second station meanwhile then_meanwhile w =
    let asked = act (call station "net.connman.iwd.Station.Scan" []) w in
    let matched = act (call "org.freedesktop.DBus" "AddMatch scan" []) asked in
    let waited = scan_wait first second station meanwhile then_meanwhile matched in
    scan_result (scan_refused (at_call.failure station "net.connman.iwd.Station.Scan")) asked waited

-- `refreshState`: what the scan returns is dropped.
unfoldable pub refresh_state :
    (at_call first second : Bus)
    → String
    → (meanwhile then_meanwhile : World → World) → World
    → Outcome World
unfolding scan
refresh_state at_call first second station meanwhile then_meanwhile w =
    scan at_call first second station meanwhile then_meanwhile w >>= λ r. ok r.0
