-- ===== src/Iwd/Client/Setup/Typed.antt =====
-- internal/iwd/client.go: the setup returns on objects with properties of iwd's types.
use x_network.Base.{
  String, List, [], ◌∷◌, Option, none, some, lookup, All, ◌=s=◌, Option-cases, Bool-cases, inl, inr,
}
use x_network.Base.Outcome.{Outcome, IsSafe, IsSafe->>=}
use x_network.Variant.{Props, as_string, as_bool, as_path, Accepts}
use x_network.State.{State}
use x_network.Runtime.{World, state_of}
use x_network.Iwd.Bus.{Bus, Interfaces, Objects, station_iface, device_iface, known_network_iface}
use x_network.Iwd.Client.{Client, update_device_props, update_station_state}
use x_network.Iwd.Client.Setup.{
  modify_state, device_in_station, visit_station, visit_device, known_name, visit, visit_all,
  find_device, maybe_init_iwd,
}
use x_network.Iwd.Networks.Safety.{IsTypedBus, when_present-IsSafe}
use x_network.Iwd.Station.Safety.{connected_network-IsSafe, modify_or_panic-IsSafe}

-- The properties of a device, of a station, and of a known network, where an object has them.
abbrev pub IsTypedDevice : Option Props → Type 0
IsTypedDevice none = Unit
IsTypedDevice (some ps) =
    Accepts as_string (lookup "Name" ps)
    × Accepts as_string (lookup "Address" ps)
    × Accepts as_bool (lookup "Powered" ps)

abbrev pub IsTypedStation : Option Props → Type 0
IsTypedStation none = Unit
IsTypedStation (some ps) =
    Accepts as_string (lookup "State" ps)
    × Accepts as_bool (lookup "Scanning" ps)
    × Accepts as_path (lookup "ConnectedNetwork" ps)

abbrev pub IsTypedKnown : Option Props → Type 0
IsTypedKnown none = Unit
IsTypedKnown (some ps) = Accepts as_string (lookup "Name" ps)

abbrev pub IsTypedObject : String × Interfaces → Type 0
IsTypedObject (path, ifaces) =
    IsTypedDevice (lookup device_iface ifaces)
    × IsTypedStation (lookup station_iface ifaces)
    × IsTypedKnown (lookup known_network_iface ifaces)

-- What a request for the objects brings, and what the networks of the stations are.
abbrev pub IsTypedIwd : Bus → Type 0
IsTypedIwd bus =
    IsTypedBus bus
    × elim bus.managed_objects [ none ↦ Unit | some objects ↦ All IsTypedObject objects ]

update_device_props-IsSafe :
    (ps : Props) (st : State) → IsTypedDevice (some ps) → IsSafe (update_device_props ps st)
unfolding update_device_props
update_device_props-IsSafe ps st (name, address, powered) =
    IsSafe->>= _ _ (when_present-IsSafe _ _ _ _ name) λ s1.
      IsSafe->>= _ _ (when_present-IsSafe _ _ _ _ address) λ s2. when_present-IsSafe _ _ _ _ powered

update_station_state-IsSafe :
    (bus : Bus) (station : String) (ps : Props) (st : State)
    → IsTypedBus bus
    → IsTypedStation (some ps)
    → IsSafe (update_station_state bus station ps st)
unfolding update_station_state
update_station_state-IsSafe bus station ps st typed (state, scanning, network) =
    IsSafe->>= _ _ (when_present-IsSafe _ _ _ _ state) λ s1.
      IsSafe->>= _ _ (when_present-IsSafe _ _ _ _ scanning)
        λ s2. connected_network-IsSafe bus station _ s2 typed network

modify_state-IsSafe :
    (fn : State → Outcome State) (w : World) → IsSafe (fn (state_of w)) → IsSafe (modify_state fn w)
modify_state-IsSafe fn w h = modify_or_panic-IsSafe _ w (IsSafe->>= _ _ h λ s. tt)

device_in_station-IsSafe :
    (path : String) (o : Option Props) (c : Client) (w : World)
    → IsTypedDevice o
    → IsSafe (device_in_station path o (c, w))
unfolding device_in_station
device_in_station-IsSafe path none c w typed = tt
device_in_station-IsSafe path (some ps) c w typed =
    IsSafe->>= _ _
      (modify_state-IsSafe (update_device_props ps) w
        (update_device_props-IsSafe ps (state_of w) typed))
      λ w'. tt

visit_station-IsSafe :
    (bus : Bus) (path : String) (ifaces : Interfaces) (o : Option Props) (c : Client) (w : World)
    → IsTypedBus bus
    → IsTypedDevice (lookup device_iface ifaces)
    → IsTypedStation o
    → IsSafe (visit_station bus path ifaces o (c, w))
unfolding visit_station
visit_station-IsSafe bus path ifaces none c w typed device station = tt
visit_station-IsSafe bus path ifaces (some ps) c w typed device station =
    IsSafe->>= _ _ (device_in_station-IsSafe path _ _ w device) λ r.
      IsSafe->>= _ _
        (modify_state-IsSafe (update_station_state bus path ps) r.1
          (update_station_state-IsSafe bus path ps (state_of r.1) typed station))
        λ w'. tt

visit_device-IsSafe :
    (path : String) (ifaces : Interfaces) (c : Client) (w : World)
    → IsTypedDevice (lookup device_iface ifaces)
    → IsSafe (visit_device path ifaces (c, w))
unfolding visit_device
visit_device-IsSafe path ifaces c w device = elim (Bool-cases (c.device_path =s= "")) [
  | inl e ↦ rw e (device_in_station-IsSafe path _ c w device)
  | inr n ↦ rw n tt
]

known_name-IsSafe :
    (o : Option Props) (saved : List String) → IsTypedKnown o → IsSafe (known_name o saved)
unfolding known_name
known_name-IsSafe none saved typed = tt
known_name-IsSafe (some ps) saved typed = elim (Option-cases (lookup "Name" ps)) [
  | inl e ↦ rw (e, known_name) tt
  | inr (v, e) ↦
      let (name, text) = (rw e at typed) in
      rw (e, known_name) (IsSafe->>= (as_string v) _ (rw text tt) λ ssid. tt)
]

visit-IsSafe :
    (bus : Bus) (object : String × Interfaces) (c : Client) (w : World) (saved : List String)
    → IsTypedBus bus
    → IsTypedObject object
    → IsSafe (visit bus object (c, w, saved))
unfolding visit
visit-IsSafe bus (path, ifaces) c w saved typed (device, station, known) =
    IsSafe->>= _ _ (visit_station-IsSafe bus path ifaces _ c w typed device station) λ r.
      IsSafe->>= _ _ (visit_device-IsSafe path ifaces r.0 r.1 device)
        λ q. IsSafe->>= _ _ (known_name-IsSafe _ saved known) λ names. tt

visit_all-IsSafe :
    (bus : Bus) (objects : Objects) (c : Client) (w : World) (saved : List String)
    → IsTypedBus bus
    → All IsTypedObject objects
    → IsSafe (visit_all bus objects (c, w, saved))
unfolding visit_all
visit_all-IsSafe bus [] c w saved typed all = tt
visit_all-IsSafe bus (object ∷ objects) c w saved typed (one, all) =
    IsSafe->>= _ _ (visit-IsSafe bus object c w saved typed one)
      λ f. visit_all-IsSafe bus objects f.0 f.1 f.2 typed all

find_device-IsSafe :
    (bus : Bus) (c : Client) (w : World) → IsTypedIwd bus → IsSafe (find_device bus c w)
unfolding find_device
find_device-IsSafe bus c w (typed, objects_typed) = elim (Option-cases bus.managed_objects) [
  | inl e ↦ rw (e, find_device) tt
  | inr (objects, e) ↦
      rw (e, find_device)
        (IsSafe->>= _ _ (visit_all-IsSafe bus objects c w [] typed (rw e at objects_typed)) λ f. tt)
]

pub maybe_init_iwd-IsSafe :
    (bus : Bus) (c : Client) (w : World) → IsTypedIwd bus → IsSafe (maybe_init_iwd bus c w)
unfolding maybe_init_iwd
maybe_init_iwd-IsSafe bus c w typed = elim (Bool-cases c.initialized) [
  | inl e ↦ rw (e, maybe_init_iwd) tt
  | inr n ↦ rw (n, maybe_init_iwd) (IsSafe->>= _ _ (find_device-IsSafe bus c w typed) λ r. tt)
]
