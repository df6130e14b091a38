-- ===== src/Traffic/Coherent.antt =====
-- internal/traffic/monitor.go: a sample keeps the shared state coherent.
use x_network.Base.{ℕ, String, arith, ◌==◌, ◌&&◌, ◌=s=◌, Bool-cases, inl, inr}
use x_network.State.Coherent.{IsCoherent}
use x_network.Runtime.{World, state_of, modify}
use x_network.Sysfs.{Sysfs}
use x_network.Traffic.{Monitor, account, sample, read_stats, pick_interface, sample_stats}

account-IsCoherent :
    (iface : String) (rx tx : ℕ) (m : Monitor) (w : World)
    → IsCoherent (state_of w)
    → IsCoherent (state_of (account iface rx tx m w).1)
unfolding account modify
account-IsCoherent iface rx tx m w v = ground arith

sample_stats-IsCoherent :
    (iface : String) (rx tx : ℕ) (m : Monitor) (w : World)
    → IsCoherent (state_of w)
    → IsCoherent (state_of (sample_stats iface (rx, tx) m w).1)
unfolding sample_stats
sample_stats-IsCoherent iface rx tx m w v = elim (Bool-cases (rx == 0 && tx == 0)) [
  | inl e ↦ rw e v
  | inr n ↦ rw n (account-IsCoherent iface rx tx m w v)
]

pub sample-IsCoherent :
    (fs : Sysfs) (m : Monitor) (w : World)
    → IsCoherent (state_of w)
    → IsCoherent (state_of (sample fs m w).1)
unfolding sample
sample-IsCoherent fs m w v =
    let iface = pick_interface fs (state_of w) in
    elim (Bool-cases (iface =s= "")) [
      | inl e ↦ rw e v
      | inr n ↦
          rw n (sample_stats-IsCoherent iface (read_stats fs iface).0 (read_stats fs iface).1 m w v)
    ]
