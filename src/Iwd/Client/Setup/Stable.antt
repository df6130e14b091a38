-- ===== src/Iwd/Client/Setup/Stable.antt =====
-- internal/iwd/client.go: what every Update keeps is kept by the coming and going of iwd.
use mathlib.Core.Path.{subst}
use x_network.Base.{
  ◌≡◌, sym, String, List, [], ◌∷◌, Option, none, some, All, inl, inr, Bool-cases, Option-cases,
}
use x_network.Base.Outcome.{Outcome, ok, ok-injective, two_steps}
use x_network.State.{State}
use x_network.Runtime.{World, state_of}
use x_network.Runtime.Stable.{
  Stable, IsOutside, call-Stable, go-Stable, modify-Stable, modify_or_panic-Stable,
}
use x_network.Iwd.Agent.{agent_path}
use x_network.Iwd.Bus.{Bus, Signal}
use x_network.Iwd.Client.{Client, update_device_props, update_station_state}
use x_network.Iwd.Client.Setup.{
  modify_state, store_saved, find_device, subscribe_signals, register_with_iwd, started,
  maybe_init_iwd, handle_iwd_disappear, subscribe_to_iwd_lifecycle, handle_lifecycle,
}
use x_network.Iwd.Client.Setup.Kept.{find_device_keeps}
use x_network.Iwd.Client.Setup.Lifecycle.{handle_lifecycle-IsHandled}

module _ (P : World → Type 0) (stable : Stable P) where
  -- An Update whose closure starts nothing.
  pub modify_state-Stable :
      (fn : State → Outcome State) (w w' : World) → modify_state fn w ≡ ok w' → P w → P w'
  modify_state-Stable fn w w' e v =
      modify_or_panic-Stable P stable _ w w' e
        (λ s begun given.
          let (s1, last, read) = two_steps (fn (state_of w)) (λ s. ok (s, [])) given in
          subst (λ r. All IsOutside r.1) (ok-injective (s1, []) (s, begun) last) tt)
        v

  pub store_saved-Stable : (names : List String) (w : World) → P w → P (store_saved names w)
  unfolding store_saved
  store_saved-Stable [] w v = v
  store_saved-Stable (ssid ∷ names) w v = modify-Stable P stable _ w v

  find_device-Stable :
      (bus : Bus) (c c' : Client) (w w' : World) (err : Option String)
      → find_device bus c w ≡ ok (c', w', err)
      → P w
      → P w'
  find_device-Stable bus c c' w w' err e v =
      find_device_keeps P (λ ps u u' done. modify_state-Stable (update_device_props ps) u u' done)
        (λ bus path ps u u' done. modify_state-Stable (update_station_state bus path ps) u u' done)
        store_saved-Stable bus c c' w w' err e v

  pub subscribe_signals-Stable : (bus : Bus) (w : World) → P w → P (subscribe_signals bus w)
  unfolding subscribe_signals
  subscribe_signals-Stable bus w v =
      elim (Option-cases (bus.failure "org.freedesktop.DBus" "AddMatch PropertiesChanged")) [
        | inl e ↦
            rw (e, subscribe_signals) (go-Stable P stable _ _ (call-Stable P stable _ _ _ w v))
        | inr (x, e) ↦ rw (e, subscribe_signals) (call-Stable P stable _ _ _ w v)
      ]

  pub register_with_iwd-Stable : (bus : Bus) (w : World) → P w → P (register_with_iwd bus w)
  unfolding register_with_iwd
  register_with_iwd-Stable bus w v = elim (Option-cases (bus.failure agent_path "Export")) [
    | inl e ↦ rw (e, register_with_iwd) (call-Stable P stable _ _ _ w v)
    | inr (x, e) ↦ rw (e, register_with_iwd) v
  ]

  started-Stable :
      (bus : Bus) (c : Client) (w : World) (err : Option String)
      → P w
      → P (started bus (c, w, err)).1
  unfolding started
  started-Stable bus c w (some e) v = v
  started-Stable bus c w none v =
      go-Stable P stable _ _ (register_with_iwd-Stable bus _ (subscribe_signals-Stable bus w v))

  pub maybe_init_iwd-Stable :
      (bus : Bus) (c c' : Client) (w w' : World) (err : Option String)
      → maybe_init_iwd bus c w ≡ ok (c', w', err)
      → P w
      → P w'
  unfolding maybe_init_iwd
  maybe_init_iwd-Stable bus c c' w w' err e v = elim (Bool-cases c.initialized) [
    | inl already ↦
        subst (λ f. P f.1)
          (ok-injective (c, w, none) (c', w', err) (rw (already, maybe_init_iwd) at e)) v
    | inr fresh ↦
        let ((c1, w1, err1), ends, found) =
          two_steps (find_device bus c w) (λ r. ok (started bus r))
            (rw (fresh, maybe_init_iwd) at e) in
        subst (λ f. P f.1) (ok-injective (started bus (c1, w1, err1)) (c', w', err) ends)
          (started-Stable bus c1 w1 err1 (find_device-Stable bus c c1 w w1 err1 found v))
  ]

  handle_iwd_disappear-Stable : (c : Client) (w : World) → P w → P (handle_iwd_disappear c w).1
  unfolding handle_iwd_disappear
  handle_iwd_disappear-Stable c w v = modify-Stable P stable _ w v

  pub handle_lifecycle-Stable :
      (bus : Bus) (sig : Signal) (c : Client) (w : World) (r : Client × World)
      → handle_lifecycle bus sig c w ≡ ok r
      → P w
      → P r.1
  handle_lifecycle-Stable bus sig c w r e v = elim (handle_lifecycle-IsHandled bus sig c w r e) [
    | inl same ↦ subst (λ r. P r.1) (sym same) v
    | inr (inl (err, init)) ↦ maybe_init_iwd-Stable bus c r.0 w r.1 err init v
    | inr (inr gone) ↦ subst (λ r. P r.1) (sym gone) (handle_iwd_disappear-Stable c w v)
  ]

  pub subscribe_to_iwd_lifecycle-Stable :
      (bus : Bus) (w : World) → P w → P (subscribe_to_iwd_lifecycle bus w)
  unfolding subscribe_to_iwd_lifecycle
  subscribe_to_iwd_lifecycle-Stable bus w v =
      let asked = call-Stable P stable _ _ _ w v in
      elim (Option-cases (bus.failure "org.freedesktop.DBus" "AddMatch NameOwnerChanged")) [
        | inl e ↦
            rw (e, subscribe_to_iwd_lifecycle)
              (go-Stable P stable _ _ (call-Stable P stable _ _ _ _ asked))
        | inr (x, e) ↦ rw (e, subscribe_to_iwd_lifecycle) asked
      ]
