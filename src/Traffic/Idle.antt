-- ===== src/Traffic/Idle.antt =====
-- internal/traffic/monitor.go: the loop of `Run` while nothing goes through the interface.
use x_network.Base.{ℕ, zero, suc, ◌<◌, ◌≡◌, refl, ap, ◌∙◌, ◌≢◌, String, List, [], ◌∷◌}
use x_network.Runtime.{World, state_of}
use x_network.Sysfs.{Sysfs, uint64_mod}
use x_network.Traffic.{Monitor, read_stats, pick_interface, sample, Tick, tick, run_loop}
use x_network.Traffic.Sampling.{sample_idle_once}

-- So many rounds of the ticker, with the same files.
abbrev pub ticks : ℕ → Sysfs → List Tick
ticks zero fs = []
ticks (suc n) fs = tick fs ∷ ticks n fs

run_loop_fixed :
    (n : ℕ) (fs : Sysfs) (m : Monitor) (w : World)
    → sample fs m w ≡ (m, w)
    → run_loop (ticks n fs) m w ≡ (m, w)
unfolding run_loop
run_loop_fixed zero fs m w e = refl
run_loop_fixed (suc n) fs m w e =
    ap (λ r. run_loop (ticks n fs) r.0 r.1) e ∙ run_loop_fixed n fs m w e

-- While the counters stay as they are, the loop does in all its rounds what it does in the first:
-- it shows zeros at most once, and then leaves the state and the clients alone.
pub run_loop_idle :
    (n : ℕ) (fs : Sysfs) (iface : String) (m : Monitor) (w : World)
    → pick_interface fs (state_of w) ≡ iface
    → iface ≢ ""
    → read_stats fs iface ≡ (m.last_rx, m.last_tx)
    → 0 < m.last_rx
    → m.last_rx < uint64_mod
    → m.last_tx < uint64_mod
    → run_loop (ticks (suc n) fs) m w ≡ sample fs m w
unfolding run_loop
run_loop_idle n fs iface m w p ne r pos small small_tx =
    run_loop_fixed n fs _ _ (sample_idle_once fs iface m w p ne r pos small small_tx)
