-- ===== src/Traffic.antt =====
-- internal/traffic/monitor.go: once a second, the bytes that went through the active interface.
pub mod Counter
pub mod Interface
pub mod Examples
pub mod Sampling
pub mod Idle
pub mod Stable
pub mod Coherent
pub mod Lifecycle
use x_network.Base.{
  ℕ, ◌+◌, ◌-◌, ◌%◌, String, Bool, true, false, not, ◌&&◌, ◌||◌, List, [], ◌∷◌, Option, none, some,
  ltb, ◌==◌, ◌=s=◌, if◌then◌else◌,
}
use text.Mathlib.Text.{starts_with}
use x_network.Base.Outcome.{Outcome, ok, panic}
use x_network.State.{State, connected, same_state}
use x_network.Runtime.{World, state_of, modify}
use x_network.Sysfs.{Sysfs, trim_space, first_line, parse_uint, uint64_mod}

pub record Monitor : Type 0 where
  pub running : Bool
  pub stop_closed : Bool  -- stopCh has been closed
  pub last_rx : ℕ  -- uint64
  pub last_tx : ℕ  -- uint64
  pub idle_emitted : Bool

abbrev pub new_monitor : Monitor
new_monitor = record {
  running = false;
  stop_closed = false;
  last_rx = 0;
  last_tx = 0;
  idle_emitted = false;
}

abbrev pub min_delta_bytes : ℕ
min_delta_bytes = 100

abbrev or_zero : Option ℕ → ℕ
or_zero none = 0
or_zero (some n) = n

value_of_line : Option (List ℕ) → ℕ
unfolding parse_uint trim_space
value_of_line none = 0
value_of_line (some line) = or_zero (parse_uint (trim_space line))

-- A file that cannot be read, is empty or holds no uint64 counts as 0.
pub read_uint64_file : Option (List ℕ) → ℕ
unfolding value_of_line first_line
read_uint64_file none = 0
read_uint64_file (some content) = value_of_line (first_line content)

pub read_stats : Sysfs → String → ℕ × ℕ
read_stats fs iface = (
  read_uint64_file (fs.read_file iface "statistics/rx_bytes"),
  read_uint64_file (fs.read_file iface "statistics/tx_bytes"),
)

abbrev bytes_up : List ℕ
bytes_up = b'u' ∷ b'p' ∷ []

abbrev same_bytes : List ℕ → List ℕ → Bool
same_bytes [] [] = true
same_bytes (a ∷ as') (b ∷ bs) = a == b && same_bytes as' bs
same_bytes _ _ = false

pub is_up : Sysfs → String → Bool
unfolding trim_space
is_up fs name = elim (fs.read_file name "operstate") [
  | none ↦ false
  | some content ↦ same_bytes (trim_space content) bytes_up
]

has_prefix_wl : String → Bool
has_prefix_wl name = starts_with name "wl"

first_active : Sysfs → List String → String
first_active fs [] = ""
first_active fs (name ∷ rest) =
    let later = first_active fs rest in
    if name =s= "lo"
    then later
    else (if is_up fs name then (if has_prefix_wl name then name else name) else later)

find_active_of : Sysfs → Option (List String) → String
find_active_of fs none = ""
find_active_of fs (some entries) = first_active fs entries

pub find_active_interface : Sysfs → String
unfolding find_active_of
find_active_interface fs = find_active_of fs fs.entries

-- The WiFi interface, or the USB interface while the first has no connection.
abbrev pub preferred : State → String
preferred st =
    if (st.interface_name =s= "" || not (same_state st.connection_state connected))
      && st.usb_tethering_connected
      && not (st.usb_interface_name =s= "")
    then st.usb_interface_name
    else st.interface_name

pub pick_interface : Sysfs → State → String
pick_interface fs st = if preferred st =s= "" then find_active_interface fs else preferred st

-- `deltaRx = rx - m.lastRx` on uint64, once a first sample was taken.
pub delta : (last_rx last now : ℕ) → ℕ
delta last_rx last now = if ltb 0 last_rx then (now + uint64_mod - last) % uint64_mod else 0

abbrev report : String → ℕ → ℕ → State → State
report iface delta_rx delta_tx s = record s {
  traffic_in = delta_rx;
  traffic_out = delta_tx;
  interface_name = iface;
}

abbrev report_idle : State → State
report_idle s = record s { traffic_in = 0; traffic_out = 0 }

pub account : String → ℕ → ℕ → Monitor → World → Monitor × World
unfolding delta
account iface rx tx m w =
    let delta_rx = delta m.last_rx m.last_rx rx in
    let delta_tx = delta m.last_rx m.last_tx tx in
    let seen = record m { last_rx = rx; last_tx = tx } in
    if ltb min_delta_bytes delta_rx || ltb min_delta_bytes delta_tx
    then (record seen { idle_emitted = false }, modify (report iface delta_rx delta_tx) w)
    else (if (delta_rx == 0 && delta_tx == 0) && not m.idle_emitted
        then (record seen { idle_emitted = true }, modify report_idle w)
        else (seen, w))

sample_stats : String → ℕ × ℕ → Monitor → World → Monitor × World
unfolding account
sample_stats iface (rx, tx) m w = if rx == 0 && tx == 0 then (m, w) else account iface rx tx m w

sample_on : Sysfs → String → Monitor → World → Monitor × World
unfolding sample_stats
sample_on fs iface m w =
    if iface =s= "" then (m, w) else sample_stats iface (read_stats fs iface) m w

pub sample : Sysfs → Monitor → World → Monitor × World
unfolding sample_on
sample fs m w = sample_on fs (pick_interface fs (state_of w)) m w

-- `Run` up to its loop: whether this call runs the loop.
unfoldable pub run : Monitor → Monitor × Bool
run m = if m.running then (m, false) else (record m { running = true }, true)

-- `Stop`: closing a channel a second time panics.
pub stop : Monitor → Outcome Monitor
stop m =
    if m.running
    then (if m.stop_closed then panic else ok (record m { running = false; stop_closed = true }))
    else ok m

-- What the loop of `Run` meets: the ticker, with the file system of that moment, or the closed
-- channel.
pub data Tick : Type 0 where
  tick : Sysfs → Tick
  stop_seen : Tick

-- The rounds as far as the loop is watched; it returns at the first that finds the channel closed.
unfoldable pub run_loop : List Tick → Monitor → World → Monitor × World
unfolding sample
run_loop [] m w = (m, w)
run_loop (stop_seen ∷ ticks) m w = (m, w)
run_loop (tick fs ∷ ticks) m w = let (m', w') = sample fs m w in run_loop ticks m' w'
