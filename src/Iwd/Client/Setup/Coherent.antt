-- ===== src/Iwd/Client/Setup/Coherent.antt =====
-- internal/iwd/client.go: the coming and going of iwd keeps the shared state coherent.
use mathlib.Core.Path.{subst}
use x_network.Base.{◌≡◌, String, List, Option, arith, Bool-cases, inl, inr}
use x_network.Base.Outcome.{Outcome, ok, ok-injective, two_steps}
use x_network.Variant.{Props}
use x_network.State.{State}
use x_network.State.Coherent.{IsCoherent}
use x_network.Runtime.{World, state_of, modify, modify_or_panic_keeps}
use x_network.Iwd.Bus.{Bus}
use x_network.Iwd.Client.Coherent.{update_device_props-IsCoherent, update_station_state-IsCoherent}
use x_network.Iwd.Client.{Client, update_device_props, update_station_state}
use x_network.Iwd.Client.Setup.Kept.{find_device_keeps}
use x_network.Iwd.Client.Setup.{
  modify_state, started, find_device, maybe_init_iwd, store_saved, subscribe_signals,
  register_with_iwd, handle_iwd_disappear,
}

modify_state-IsCoherent :
    (fn : State → Outcome State) (w w' : World)
    → modify_state fn w ≡ ok w'
    → ((s' : State) → fn (state_of w) ≡ ok s' → IsCoherent s')
    → IsCoherent (state_of w')
modify_state-IsCoherent fn w w' e gives =
    modify_or_panic_keeps IsCoherent _ w w' e λ s started ends.
      let (s1, last, given) = two_steps (fn (state_of w)) _ ends in gives s (ground arith)

pub device_update-IsCoherent :
    (ps : Props) (w w' : World)
    → modify_state (update_device_props ps) w ≡ ok w'
    → IsCoherent (state_of w)
    → IsCoherent (state_of w')
device_update-IsCoherent ps w w' done v =
    modify_state-IsCoherent (update_device_props ps) w w' done
      (λ s given. update_device_props-IsCoherent ps (state_of w) s given v)

pub station_update-IsCoherent :
    (bus : Bus) (path : String) (ps : Props) (w w' : World)
    → modify_state (update_station_state bus path ps) w ≡ ok w'
    → IsCoherent (state_of w)
    → IsCoherent (state_of w')
station_update-IsCoherent bus path ps w w' done v =
    modify_state-IsCoherent (update_station_state bus path ps) w w' done
      (λ s given. update_station_state-IsCoherent bus path ps (state_of w) s given v)

pub store_saved-IsCoherent :
    (names : List String) (w : World)
    → IsCoherent (state_of w)
    → IsCoherent (state_of (store_saved names w))
unfolding store_saved modify
store_saved-IsCoherent names w v = ground arith

find_device-IsCoherent :
    (bus : Bus) (c c' : Client) (w w' : World) (err : Option String)
    → find_device bus c w ≡ ok (c', w', err)
    → IsCoherent (state_of w)
    → IsCoherent (state_of w')
find_device-IsCoherent bus c c' w w' err e v =
    find_device_keeps (λ u. IsCoherent (state_of u)) device_update-IsCoherent
      station_update-IsCoherent store_saved-IsCoherent bus c c' w w' err e v

pub subscribe_signals-manager :
    (bus : Bus) (w : World) → (subscribe_signals bus w).manager ≡ w.manager
unfolding subscribe_signals
subscribe_signals-manager bus w = ground arith

pub register_with_iwd-manager :
    (bus : Bus) (w : World) → (register_with_iwd bus w).manager ≡ w.manager
unfolding register_with_iwd
register_with_iwd-manager bus w = ground arith

started-IsCoherent :
    (bus : Bus) (c : Client) (w : World) (err : Option String)
    → IsCoherent (state_of w)
    → IsCoherent (state_of (started bus (c, w, err)).1)
unfolding started
started-IsCoherent bus c w err v = ground arith

pub maybe_init_iwd-IsCoherent :
    (bus : Bus) (c c' : Client) (w w' : World) (err : Option String)
    → maybe_init_iwd bus c w ≡ ok (c', w', err)
    → IsCoherent (state_of w)
    → IsCoherent (state_of w')
unfolding maybe_init_iwd
maybe_init_iwd-IsCoherent bus c c' w w' err e v = elim (Bool-cases c.initialized) [
  | inl already ↦ ground arith
  | inr fresh ↦
      let ((c1, w1, err1), ends, found) =
        two_steps (find_device bus c w) (λ r. ok (started bus r))
          (rw (fresh, maybe_init_iwd) at e) in
      subst (λ f. IsCoherent (state_of f.1))
        (ok-injective (started bus (c1, w1, err1)) (c', w', err) ends)
        (started-IsCoherent bus c1 w1 err1 (find_device-IsCoherent bus c c1 w w1 err1 found v))
]

pub handle_iwd_disappear-IsCoherent :
    (c : Client) (w : World)
    → IsCoherent (state_of w)
    → IsCoherent (state_of (handle_iwd_disappear c w).1)
unfolding handle_iwd_disappear modify
handle_iwd_disappear-IsCoherent c w v = ground arith
