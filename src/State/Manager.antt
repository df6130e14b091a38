-- ===== src/State/Manager.antt =====
-- internal/state/state.go: `Manager`, the lock-protected state with its change callback. The
-- type of what a callback does is the parameter `E`.
use x_network.Base.{Option, none, some}
use x_network.Base.Outcome.{Outcome, ok, ◌>>=◌}
use x_network.State.{State, initial}

pub record Manager (E : Type 0) : Type 0 where
  pub state : State
  pub on_change : Option (State → E)

module _ {E : Type 0} where
  unfoldable pub new_manager : Manager E
  new_manager = record { state = initial; on_change = none }

  unfoldable pub set_on_change : (State → E) → Manager E → Manager E
  set_on_change fn m = record m { on_change = some fn }

  unfoldable pub get : Manager E → State
  get m = m.state

  -- The callback runs after the lock is released, on a copy.
  abbrev pub announce : Option (State → E) → State → Option E
  announce none copy = none
  announce (some fn) copy = some (fn copy)

  unfoldable pub update : (State → State) → Manager E → Manager E × Option E
  update fn m = (record m { state = fn m.state }, announce m.on_change (fn m.state))

  -- `Update` with a function that may panic: the panic leaves `Update`, and ends the program.
  unfoldable pub update_or_panic :
      (State → Outcome State) → Manager E → Outcome (Manager E × Option E)
  unfolding update
  update_or_panic fn m = fn m.state >>= λ s. ok (update (λ _. s) m)
