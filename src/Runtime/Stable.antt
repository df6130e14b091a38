-- ===== src/Runtime/Stable.antt =====
-- Properties of the world that every Update and everything that is done outside keep, whatever the
-- closure. What a part of the daemon does is made of these, so that it keeps such a property too.
use mathlib.Core.Path.{subst}
use x_network.Base.{◌≡◌, String, List, [], All}
use x_network.Base.Outcome.{Outcome, ok, ok-injective, two_steps}
use x_network.Variant.{Variant}
use x_network.State.{State}
use x_network.Runtime.{
  Task, Effect, emit, properties_changed, call, exec, go, close, World, state_of, act, modify,
  modify_with, modify_or_panic,
}

-- All but the announcement of a new state and the end of a connection.
abbrev pub IsOutside : Effect → Type 0
IsOutside (properties_changed props) = ⊥
IsOutside (close conn) = ⊥
IsOutside _ = Unit

pub record Stable (P : World → Type 0) : Type 0 where
  pub acts : (e : Effect) (w : World) → IsOutside e → P w → P (act e w)
  pub updates :
      (fn : State → State × List Effect) (w : World)
      → All IsOutside (fn (state_of w)).1
      → P w
      → P (modify_with fn w)

module _ (P : World → Type 0) (stable : Stable P) where
  pub emit-Stable :
      (name : String) (values : List Variant) (w : World) → P w → P (act (emit name values) w)
  emit-Stable name values w v = stable.acts (emit name values) w tt v

  pub call-Stable :
      (object method : String) (args : List Variant) (w : World)
      → P w
      → P (act (call object method args) w)
  call-Stable object method args w v = stable.acts (call object method args) w tt v

  pub exec-Stable : (command : List String) (w : World) → P w → P (act (exec command) w)
  exec-Stable command w v = stable.acts (exec command) w tt v

  pub go-Stable : (task : Task) (w : World) → P w → P (act (go task) w)
  go-Stable task w v = stable.acts (go task) w tt v

  pub modify-Stable : (fn : State → State) (w : World) → P w → P (modify fn w)
  unfolding modify
  modify-Stable fn w v = stable.updates (λ s. (fn s, [])) w tt v

  pub modify_or_panic-Stable :
      (fn : State → Outcome (State × List Effect)) (w w' : World)
      → modify_or_panic fn w ≡ ok w'
      → ((s : State) (started : List Effect)
          → fn (state_of w) ≡ ok (s, started)
          → All IsOutside started)
      → P w
      → P w'
  unfolding modify_or_panic
  modify_or_panic-Stable fn w w' e outside v =
      let ((s, started), ends, given) = two_steps (fn (state_of w)) _ e in
      subst P (ok-injective _ w' ends)
        (stable.updates (λ _. (s, started)) w (outside s started given) v)
