-- ===== src/Iwd/Station/Safety.antt =====
-- internal/iwd/client.go: the signal handlers do not panic on properties of iwd's types.
use x_network.Base.{
  String, Bool, true, false, List, ◌∷◌, Option, none, some, lookup, ◌=s=◌, Option-cases, Bool-cases,
  inl, inr, arith,
}
use x_network.Base.Outcome.{Outcome, IsSafe, IsSafe->>=}
use x_network.Variant.{Variant, Props, as_string, as_bool, as_path, Accepts}
use x_network.State.{State}
use x_network.Runtime.{Effect, World, state_of, modify_or_panic}
use x_network.Iwd.Bus.{Bus, Value, Signal, station_iface, device_iface}
use x_network.Iwd.Client.{fetch_network_details, connected_network}
use x_network.Iwd.Station.{
  state_changed, station_change, scan_completed, refresh_if, connected_now, handle_station_change,
  device_change, handle_device_change, changed, property_change, handle_property_change,
}
use x_network.Iwd.Networks.Safety.{IsTypedBus, when_present-IsSafe, refresh_networks-IsSafe}

abbrev pub IsTypedChange : Props → Type 0
IsTypedChange ps =
    Accepts as_string (lookup "State" ps)
    × Accepts as_bool (lookup "Scanning" ps)
    × Accepts as_path (lookup "ConnectedNetwork" ps)
    × Accepts as_bool (lookup "Powered" ps)

fetch_network_details-IsSafe :
    (bus : Bus) (station path : String) (st : State)
    → IsTypedBus bus
    → IsSafe (fetch_network_details bus station path st)
unfolding fetch_network_details
fetch_network_details-IsSafe bus station path st typed = elim (Bool-cases (path =s= "")) [
  | inl e ↦ rw e tt
  | inr n ↦ elim (Option-cases (bus.network_props path)) [
    | inl e ↦ rw (n, e) tt
    | inr (ps, e) ↦
        let (name, kind, conn, known) = (rw e at (typed path)) in
        rw (n, e)
          (IsSafe->>= _ _ (when_present-IsSafe _ _ _ _ name)
            λ st1. IsSafe->>= _ _ (when_present-IsSafe _ _ _ _ kind) λ st2. tt)
  ]
]

pub connected_network-IsSafe :
    (bus : Bus) (station : String) (o : Option Variant) (st : State)
    → IsTypedBus bus
    → Accepts as_path o
    → IsSafe (connected_network bus station o st)
unfolding connected_network
connected_network-IsSafe bus station none st typed h = tt
connected_network-IsSafe bus station (some v) st typed (path, e) =
    rw e (fetch_network_details-IsSafe bus station path st typed)

state_changed-IsSafe :
    (o : Option Variant) (st : State) → Accepts as_string o → IsSafe (state_changed o st)
unfolding state_changed
state_changed-IsSafe none st h = tt
state_changed-IsSafe (some v) st (text, e) = rw e tt

station_change-IsSafe :
    (bus : Bus) (station : String) (ps : Props) (st : State)
    → IsTypedBus bus
    → IsTypedChange ps
    → IsSafe (station_change bus station ps st)
unfolding station_change
station_change-IsSafe bus station ps st typed (state, scanning, network, powered) =
    IsSafe->>= _ _ (state_changed-IsSafe _ st state) λ r.
      IsSafe->>= _ _ (when_present-IsSafe _ _ _ _ scanning)
        λ st1. IsSafe->>= _ _ (connected_network-IsSafe bus station _ st1 typed network) λ st2. tt

pub modify_or_panic-IsSafe :
    (fn : State → Outcome (State × List Effect)) (w : World)
    → IsSafe (fn (state_of w))
    → IsSafe (modify_or_panic fn w)
unfolding modify_or_panic
modify_or_panic-IsSafe fn w h = IsSafe->>= _ _ h λ r. tt

scan_completed-IsSafe : (o : Option Variant) → Accepts as_bool o → IsSafe (scan_completed o)
unfolding scan_completed
scan_completed-IsSafe none h = tt
scan_completed-IsSafe (some v) (b, e) = rw e tt

refresh_if-IsSafe :
    (b : Bool) (bus : Bus) (station : String) (w : World)
    → IsTypedBus bus
    → IsSafe (refresh_if b bus station w)
unfolding refresh_if
refresh_if-IsSafe false bus station w typed = tt
refresh_if-IsSafe true bus station w typed = refresh_networks-IsSafe bus station w typed

connected_now-IsSafe :
    (o : Option Variant) (w : World) → Accepts as_string o → IsSafe (connected_now o w)
unfolding connected_now
connected_now-IsSafe none w h = tt
connected_now-IsSafe (some v) w (text, e) = rw e tt

handle_station_change-IsSafe :
    (during behind : Bus) (station : String) (ps : Props) (w : World)
    → IsTypedBus during
    → IsTypedBus behind
    → IsTypedChange ps
    → IsSafe (handle_station_change during behind station ps w)
unfolding handle_station_change
handle_station_change-IsSafe during behind station ps w typed typed'
      (state, scanning, network, powered) =
    IsSafe->>= _ _ (scan_completed-IsSafe _ scanning) λ completed.
      IsSafe->>= _ _
        (modify_or_panic-IsSafe _ w (
          station_change-IsSafe during station ps (state_of w) typed
            (state, scanning, network, powered)))
        λ w1.
          IsSafe->>= _ _ (refresh_if-IsSafe completed behind station w1 typed')
            λ w2. connected_now-IsSafe _ w2 state

handle_device_change-IsSafe :
    (ps : Props) (w : World) → IsTypedChange ps → IsSafe (handle_device_change ps w)
unfolding handle_device_change device_change
handle_device_change-IsSafe ps w (state, scanning, network, powered) =
    modify_or_panic-IsSafe _ w (IsSafe->>= _ _ (when_present-IsSafe _ _ _ _ powered) λ s. tt)

changed-IsSafe :
    (during behind : Bus) (station iface : String) (ps : Props) (w : World)
    → IsTypedBus during
    → IsTypedBus behind
    → IsTypedChange ps
    → IsSafe (changed during behind station iface ps w)
unfolding changed
changed-IsSafe during behind station iface ps w typed typed' change =
    elim (Bool-cases (iface =s= station_iface)) [
      | inl e ↦ rw e (handle_station_change-IsSafe during behind station ps w typed typed' change)
      | inr n ↦ elim (Bool-cases (iface =s= device_iface)) [
        | inl e ↦ rw (n, e) (handle_device_change-IsSafe ps w change)
        | inr m ↦ rw (n, m) tt
      ]
    ]

-- What a PropertiesChanged signal of iwd may hold: its properties, where it has any, are typed.
abbrev pub IsTypedSignal : List Value → Type 0
IsTypedSignal (Value.text iface ∷ Value.props ps ∷ _) = IsTypedChange ps
IsTypedSignal _ = Unit

property_change-IsSafe :
    (during behind : Bus) (station : String) (body : List Value) (w : World)
    → IsTypedBus during
    → IsTypedBus behind
    → IsTypedSignal body
    → IsSafe (property_change during behind station body w)
unfolding property_change
property_change-IsSafe during behind station (Value.text iface ∷ Value.props ps ∷ more) w typed
      typed' change =
    changed-IsSafe during behind station iface ps w typed typed' change
property_change-IsSafe during behind station body w typed typed' change = ground arith

-- While iwd keeps to the types of its properties, in the signal and in the networks that are
-- asked for, a signal handler returns, for every signal, path, interface and world.
pub handle_property_change-IsSafe :
    (during behind : Bus) (station : String) (sig : Signal) (w : World)
    → IsTypedBus during
    → IsTypedBus behind
    → IsTypedSignal sig.body
    → IsSafe (handle_property_change during behind station sig w)
unfolding handle_property_change
handle_property_change-IsSafe during behind station sig w typed typed' body =
    elim (Bool-cases (sig.name =s= "org.freedesktop.DBus.Properties.PropertiesChanged")) [
      | inl e ↦ rw e (property_change-IsSafe during behind station sig.body w typed typed' body)
      | inr n ↦ rw n tt
    ]
