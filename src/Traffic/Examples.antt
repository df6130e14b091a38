-- ===== src/Traffic/Examples.antt =====
-- internal/traffic/monitor.go: the theorems of this part at concrete inputs.
use x_network.Base.{
  ◌+◌, ◌^◌, ◌<◌, ◌≡◌, refl, ◌≢◌, String, true, false, [], ◌∷◌, ◌++◌, some, arith, ◌=s=◌,
  if◌then◌else◌,
}
use x_network.State.{State}
use x_network.Runtime.{state_of, modify}
use x_network.Sysfs.{Sysfs, uint64_mod}
use x_network.Fixtures.{world_of, on_wifi, with_usb, on_trial}
use x_network.Traffic.{
  Monitor, new_monitor, read_uint64_file, read_stats, is_up, first_active, has_prefix_wl,
  find_active_interface, pick_interface, sample, run_loop,
}
use x_network.Traffic.Counter.{decimal, read_uint64_file-decimal}
use x_network.Traffic.Sampling.{sample-shown, sample_wraps, sample_usb_stays}
use x_network.Traffic.Idle.{ticks, run_loop_idle}

read_uint64_file-decimal_example : read_uint64_file (some (decimal 1208 1207 ++ 10 ∷ [])) ≡ 1207
read_uint64_file-decimal_example = read_uint64_file-decimal 1207 (omega arith)

-- The counters 1500 and 300 on every interface, and every interface up.
abbrev counters : Sysfs
counters = record {
  entries = some ("lo" ∷ "eth0" ∷ "wlan0" ∷ []);
  read_file = λ iface file.
      if file =s= "statistics/rx_bytes"
      then some (b'1' ∷ b'5' ∷ b'0' ∷ b'0' ∷ 10 ∷ [])
      else (if file =s= "statistics/tx_bytes"
          then some (b'3' ∷ b'0' ∷ b'0' ∷ 10 ∷ [])
          else some (b'u' ∷ b'p' ∷ 10 ∷ []));
  exists = λ iface file. false;
  on_usb_bus = λ iface. false;
}

eth0_is_a_name : ◌≢◌ {A = String} "eth0" ""
eth0_is_a_name = λ e. cc

eth0_is_found : find_active_interface counters ≢ ""
unfolding find_active_interface is_up first_active has_prefix_wl
eth0_is_found = eth0_is_a_name

-- After a sample with the counters 1000 and 300.
abbrev seen : Monitor
seen = record new_monitor { running = true; last_rx = 1000; last_tx = 300 }

-- After a sample with larger counters, of another interface.
abbrev ahead : Monitor
ahead = record new_monitor { running = true; last_rx = 2000; last_tx = 300 }

sample-shown_example :
    (state_of (sample counters seen (world_of on_wifi)).1
      ≡ record on_wifi { traffic_in = 500; traffic_out = 0; interface_name = "wlan0" })
    × ((sample counters seen (world_of on_wifi)).0
        ≡ record seen { last_rx = 1500; last_tx = 300; idle_emitted = false })
unfolding pick_interface read_stats read_uint64_file
sample-shown_example =
    sample-shown counters "wlan0" 1500 300 seen (world_of on_wifi) refl (λ e. cc) refl (omega arith)
      (omega arith) (omega arith) (omega arith) (omega arith)

sample_wraps_example :
    let s = state_of (sample counters ahead (world_of on_wifi)).1 in
    (2 ^ 63 < s.traffic_in) × (s.traffic_in + 500 ≡ uint64_mod)
unfolding pick_interface read_stats read_uint64_file
sample_wraps_example =
    sample_wraps counters "wlan0" 1500 300 ahead (world_of on_wifi) refl (λ e. cc) refl
      (omega arith) (omega arith) (omega arith)

-- Tethering is connected and the WiFi is not.
abbrev tethered : State
tethered = record on_trial { usb_tethering_connected = true; usb_interface_name = "usb0" }

sample_usb_stays_example :
    pick_interface counters (record with_usb { interface_name = "usb0" }) ≡ "usb0"
unfolding sample read_stats read_uint64_file pick_interface modify
sample_usb_stays_example =
    sample_usb_stays counters "usb0" 1500 300 seen (world_of tethered) refl refl (λ e. cc) (λ e. cc)
      refl (omega arith) (omega arith) (omega arith) (omega arith) (omega arith)
      (record with_usb { interface_name = "usb0" }) refl refl

-- After a sample with the counters as they are.
abbrev still : Monitor
still = record new_monitor { running = true; last_rx = 1500; last_tx = 300 }

run_loop_idle_example :
    run_loop (ticks 3 counters) still (world_of on_wifi) ≡ sample counters still (world_of on_wifi)
unfolding pick_interface read_stats read_uint64_file
run_loop_idle_example =
    run_loop_idle 2 counters "wlan0" still (world_of on_wifi) refl (λ e. cc) refl (omega arith)
      (omega arith) (omega arith)
