-- ===== src/Iwd/Client/Setup/Restart.antt =====
-- internal/iwd/client.go: the goroutines that handle signals, over restarts of iwd.
use mathlib.Core.Path.{subst}
use x_network.Base.{
  ℕ, ◌+◌, ◌≡◌, refl, ◌∙◌, sym, String, false, List, [], ◌∷◌, Option, none, some, arith,
}
use x_network.Base.Outcome.{ok, ok-injective, two_steps}
use x_network.Runtime.{Effect, go, signal_loop, noted, World}
use x_network.State.{State}
use x_network.State.Manager.{announce}
use x_network.Runtime.Effects.{
  total, IsSilent, IsCounted, modify-IsCounted, modify_or_panic-IsCounted,
}
use x_network.Iwd.Bus.{Bus}
use x_network.Iwd.Client.{Client, update_device_props, update_station_state}
use x_network.Iwd.Client.Setup.Kept.{find_device_keeps}
use x_network.Iwd.Client.Setup.{
  store_saved, find_device, started, subscribe_signals, register_with_iwd, maybe_init_iwd,
  handle_iwd_disappear,
}

abbrev pub starts_signal_loop : Effect → ℕ
starts_signal_loop (go signal_loop) = 1
starts_signal_loop _ = 0

-- The goroutines that handle iwd's property signals; none of them ever ends.
abbrev pub signal_loops : World → ℕ
signal_loops w = total starts_signal_loop w.effects

store_saved-IsCounted :
    (n : ℕ) (names : List String) (w : World)
    → IsCounted starts_signal_loop n w
    → IsCounted starts_signal_loop n (store_saved names w)
unfolding store_saved
store_saved-IsCounted n [] w v = v
store_saved-IsCounted n (ssid ∷ names) w v = modify-IsCounted starts_signal_loop _ w n v

find_device-IsCounted :
    (n : ℕ) (bus : Bus) (c c' : Client) (w w' : World) (err : Option String)
    → find_device bus c w ≡ ok (c', w', err)
    → IsCounted starts_signal_loop n w
    → IsCounted starts_signal_loop n w'
find_device-IsCounted n bus c c' w w' err e v =
    find_device_keeps (IsCounted starts_signal_loop n)
      (λ ps u u' done v.
        modify_or_panic-IsCounted starts_signal_loop (update_device_props ps) u u' n done v)
      (λ bus path ps u u' done v.
        modify_or_panic-IsCounted starts_signal_loop (update_station_state bus path ps) u u' n done
          v)
      (store_saved-IsCounted n) bus c c' w w' err e v

signal_loops-started :
    (bus : Bus) (c : Client) (w : World)
    → bus.failure "org.freedesktop.DBus" "AddMatch PropertiesChanged" ≡ none
    → (signal_loops (started bus (c, w, none)).1 ≡ signal_loops w + 1)
      × ((started bus (c, w, none)).1.manager ≡ w.manager)
unfolding started subscribe_signals register_with_iwd
signal_loops-started bus c w fine = ground arith

started-IsCounted :
    (n : ℕ) (bus : Bus) (c : Client) (w : World)
    → bus.failure "org.freedesktop.DBus" "AddMatch PropertiesChanged" ≡ none
    → IsCounted starts_signal_loop n w
    → IsCounted starts_signal_loop (n + 1) (started bus (c, w, none)).1
started-IsCounted n bus c w fine v =
    let (counts, same) = signal_loops-started bus c w fine in
    record {
      silent =
          subst
            (λ m. (s : State) → total starts_signal_loop (noted (announce m.on_change s) []) ≡ 0)
            (sym same) v.silent;
      counted = omega (arith, counts, v.counted);
    }

no_success :
    (bus : Bus) (c c' : Client) (w w' : World) (e : String)
    → ok (started bus (c, w, some e)) ≡ ok (c', w', none)
    → ⊥
unfolding started
no_success bus c c' w w' e ends = ground arith

success-IsCounted :
    (n : ℕ) (bus : Bus) (c c' : Client) (w w' : World) (err : Option String)
    → bus.failure "org.freedesktop.DBus" "AddMatch PropertiesChanged" ≡ none
    → ok (started bus (c, w, err)) ≡ ok (c', w', none)
    → IsCounted starts_signal_loop n w
    → IsCounted starts_signal_loop (n + 1) w'
success-IsCounted n bus c c' w w' none fine ends v =
    subst (λ f. IsCounted starts_signal_loop (n + 1) f.1)
      (ok-injective (started bus (c, w, none)) (c', w', none) ends)
      (started-IsCounted n bus c w fine v)
success-IsCounted n bus c c' w w' (some e) fine ends v = absurd (no_success bus c c' w w' e ends)

maybe_init_iwd-IsCounted :
    (n : ℕ) (bus : Bus) (c c' : Client) (w w' : World)
    → c.initialized ≡ false
    → bus.failure "org.freedesktop.DBus" "AddMatch PropertiesChanged" ≡ none
    → maybe_init_iwd bus c w ≡ ok (c', w', none)
    → IsCounted starts_signal_loop n w
    → IsCounted starts_signal_loop (n + 1) w'
unfolding maybe_init_iwd
maybe_init_iwd-IsCounted n bus c c' w w' fresh fine e v =
    let ((c1, w1, err), ends, found) =
      two_steps (find_device bus c w) (λ r. ok (started bus r)) (rw (fresh, maybe_init_iwd) at e) in
    success-IsCounted n bus c1 c' w1 w' err fine ends
      (find_device-IsCounted n bus c c1 w w1 err found v)

-- iwd goes and comes back some number of times, with a station and the subscription each time.
pub data Restarts (c : Client) (w : World) : ℕ → Client → World → Type 0 where
  before : Restarts c w 0 c w
  again :
      {n : ℕ} {c1 c2 : Client} {w1 w2 : World} (bus : Bus)
      → Restarts c w n c1 w1
      → bus.failure "org.freedesktop.DBus" "AddMatch PropertiesChanged" ≡ none
      → maybe_init_iwd bus (handle_iwd_disappear c1 w1).0 (handle_iwd_disappear c1 w1).1
        ≡ ok (c2, w2, none)
      → Restarts c w (n + 1) c2 w2

restarts-IsCounted :
    (c : Client) (w : World) (m n : ℕ) (c' : Client) (w' : World)
    → Restarts c w n c' w'
    → IsCounted starts_signal_loop m w
    → IsCounted starts_signal_loop (m + n) w'
unfolding handle_iwd_disappear
restarts-IsCounted c w m n c' w' before v = record {
  silent = v.silent;
  counted = v.counted ∙ omega arith;
}
restarts-IsCounted c w m n c' w' (again {n = k} {c1 = c1} {w1 = w1} bus past fine init) v =
    let more =
      maybe_init_iwd-IsCounted (m + k) bus (handle_iwd_disappear c1 w1).0 c'
        (handle_iwd_disappear c1 w1).1 w' refl fine init
        (modify-IsCounted starts_signal_loop _ w1 (m + k)
          (restarts-IsCounted c w m k c1 w1 past v)) in
    record { silent = more.silent; counted = more.counted ∙ omega arith }

-- After n restarts of iwd, each with a station and its subscription, there are n more goroutines
-- that handle every property signal, while the change callback starts none by itself.
pub signal_loops-Restarts :
    (n : ℕ) (c c' : Client) (w w' : World)
    → IsSilent starts_signal_loop w
    → Restarts c w n c' w'
    → signal_loops w' ≡ signal_loops w + n
signal_loops-Restarts n c c' w w' q past =
    (restarts-IsCounted c w (signal_loops w) n c' w' past
      (record { silent = q; counted = refl })).counted
