-- ===== src/Traffic/Lifecycle.antt =====
-- internal/traffic/monitor.go: starting and stopping the monitor.
use x_network.Runtime.{World}
use x_network.Sysfs.{Sysfs}
use x_network.Base.{
  ℕ, suc, ◌≤◌, ◌≡◌, refl, String, Bool-cases, inl, inr, true, false, List, [], ◌∷◌, arith,
}
use x_network.Base.Outcome.{Outcome, ok, panic, ◌>>=◌, Returns}
use x_network.Traffic.{Monitor, new_monitor, run, stop, account, sample}

pub data LifeCall : Type 0 where
  runs stops : LifeCall

-- The calls of `Run` and `Stop`, one after another, of whichever goroutines.
unfoldable pub lives : List LifeCall → Monitor → Outcome Monitor
lives [] m = ok m
lives (runs ∷ cs) m = lives cs (run m).0
lives (stops ∷ cs) m = stop m >>= λ m'. lives cs m'

abbrev pub count_runs : List LifeCall → ℕ
count_runs [] = 0
count_runs (runs ∷ cs) = suc (count_runs cs)
count_runs (stops ∷ cs) = count_runs cs

-- Not yet run; running; stopped.
abbrev IsSafe : ℕ → Monitor → Type 0
IsSafe left m =
    (m.stop_closed ≡ true → (m.running ≡ false) × (left ≡ 0))
    × (m.running ≡ true → left ≡ 0)
    × (left ≤ 1)

lives-Returns :
    (cs : List LifeCall) (m : Monitor) → IsSafe (count_runs cs) m → Returns (lives cs m) (λ _. Unit)
unfolding lives run stop
lives-Returns [] m h = tt
lives-Returns (runs ∷ cs) m h = ground (arith, lives-Returns cs (record m { running = true }))
lives-Returns (stops ∷ cs) m h =
    ground (
      arith,
      lives-Returns cs m,
      lives-Returns cs (record m { running = false; stop_closed = true }),
    )

-- A monitor that is run at most once can be stopped any number of times, at any time.
pub lives_once :
    (cs : List LifeCall) → count_runs cs ≤ 1 → Returns (lives cs new_monitor) (λ _. Unit)
lives_once cs h = lives-Returns cs new_monitor (ground arith)

-- The channel is closed for good: once a monitor is run, stopped and run again, the next Stop
-- panics.
pub lives_twice :
    (cs : List LifeCall) → lives (runs ∷ stops ∷ runs ∷ stops ∷ cs) new_monitor ≡ panic
unfolding lives run stop
lives_twice cs = refl

-- Neither the loop nor its start closes the channel.
account-stop_closed :
    (iface : String) (rx tx : ℕ) (m : Monitor) (w : World)
    → (account iface rx tx m w).0.stop_closed ≡ m.stop_closed
unfolding account
account-stop_closed iface rx tx m w = ground arith

pub sample-stop_closed :
    (fs : Sysfs) (m : Monitor) (w : World) → (sample fs m w).0.stop_closed ≡ m.stop_closed
unfolding sample
sample-stop_closed fs m w = grind (arith, account-stop_closed)

pub run-stop_closed : (m : Monitor) → (run m).0.stop_closed ≡ m.stop_closed
unfolding run
run-stop_closed m = ground arith

-- While the channel is open, a Stop returns, and the monitor does not run any more.
pub stop-returns :
    (m : Monitor) → m.stop_closed ≡ false → (m' : Monitor) × (stop m ≡ ok m') × (m'.running ≡ false)
unfolding stop
stop-returns m h = elim (Bool-cases m.running) [
  | inl on ↦ (record m { running = false; stop_closed = true }, rw (on, h, stop) refl, refl)
  | inr off ↦ (m, rw (off, stop) refl, off)
]
