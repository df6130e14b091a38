-- ===== src/Daemon/Stable.antt =====
-- cmd/x-network/main.go: what every Update keeps is kept by the resume from sleep.
use x_network.Base.{ℕ, Bool, arith}
use x_network.Runtime.{World}
use x_network.Runtime.Stable.{Stable, modify-Stable, go-Stable}
use x_network.Iwd.Bus.{Signal}
use x_network.Daemon.{handle_sleep_signal}

module _ (P : World → Type 0) (stable : Stable P) where
  pub handle_sleep_signal-Stable :
      (now : ℕ) (with_client : Bool) (sig : Signal) (w : World)
      → P w
      → P (handle_sleep_signal now with_client sig w)
  unfolding handle_sleep_signal
  handle_sleep_signal-Stable now with_client sig w v =
      grind (arith, modify-Stable P stable, go-Stable P stable)
