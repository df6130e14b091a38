-- ===== src/Traffic/Stable.antt =====
-- internal/traffic/monitor.go: what every Update keeps is kept by a sample.
use x_network.Base.{ℕ, String, arith}
use x_network.Runtime.{World}
use x_network.Runtime.Stable.{Stable, modify-Stable}
use x_network.Sysfs.{Sysfs}
use x_network.Traffic.{Monitor, account, sample}

module _ (P : World → Type 0) (stable : Stable P) where
  account-Stable :
      (iface : String) (rx tx : ℕ) (m : Monitor) (w : World) → P w → P (account iface rx tx m w).1
  unfolding account
  account-Stable iface rx tx m w v = grind (arith, modify-Stable P stable)

  pub sample-Stable : (fs : Sysfs) (m : Monitor) (w : World) → P w → P (sample fs m w).1
  unfolding sample
  sample-Stable fs m w v = grind (arith, account-Stable)
