-- ===== src/State/Examples.antt =====
-- internal/state/state.go: the theorems of this part at concrete inputs.
use mathlib.Core.List.{head?}
use x_network.Base.{◌≡◌, refl, ◌≢◌, ◌⊎◌, [], ◌∷◌, some, true, false, ap}
use x_network.State.{State, initial}
use x_network.State.Delivery.{
  Deliveries, start, Reach, here, next, write, deliver, deliveries_settle, deliveries_overtake,
}

abbrev enabled : State → State
enabled st = record st { wifi_enabled = true }

abbrev delivered_once : Deliveries
delivered_once = record {
  state = enabled initial;
  in_flight = [];
  delivered = enabled initial ∷ [];
}

abbrev write_and_deliver : Reach (start initial) delivered_once
write_and_deliver =
    next (next here (write (start initial) enabled)) (deliver _ [] (enabled initial) [] refl)

deliveries_settle_example :
    (head? (enabled initial ∷ []) ≡ some (enabled initial)) ⊎ (enabled initial ≡ initial)
deliveries_settle_example =
    deliveries_settle initial {c = delivered_once} write_and_deliver ((tt, tt), refl) refl

deliveries_overtake_example :
    (c : Deliveries) × Reach (start initial) c
    × (c.in_flight ≡ [])
    × (c.state ≡ initial)
    × (head? c.delivered ≡ some (enabled initial))
    × (head? c.delivered ≢ some c.state)
deliveries_overtake_example =
    deliveries_overtake initial enabled (λ st. record st { wifi_enabled = false })
      (λ e. cc (ap (λ (st : State). st.wifi_enabled) e))
