-- ===== src/Iwd/Client/Setup/Kept.antt =====
-- internal/iwd/client.go: what the Updates for a device, for a station and for the saved networks
-- keep is kept by all of `findDevice`.
use mathlib.Core.Path.{subst}
use x_network.Base.{
  ◌≡◌, String, List, [], ◌∷◌, Option, some, lookup, arith, ◌=s=◌, ◌<>◌, Bool-cases, inl, inr,
  Option-cases,
}
use x_network.Base.Outcome.{ok, ok-injective, two_steps}
use x_network.Variant.{Props}
use x_network.Runtime.{World}
use x_network.Iwd.Bus.{Bus, Interfaces, Objects, station_iface, known_network_iface}
use x_network.Iwd.Client.{Client, update_device_props, update_station_state}
use x_network.Iwd.Client.Setup.{
  modify_state, device_in_station, visit_station, visit_device, known_name, visit, visit_all,
  conclude, store_saved, find_device,
}

module _ (P : World → Type 0)
    (devices : (ps : Props) (w w' : World)
      → modify_state (update_device_props ps) w ≡ ok w'
      → P w
      → P w')
    (stations : (bus : Bus) (path : String) (ps : Props) (w w' : World)
      → modify_state (update_station_state bus path ps) w ≡ ok w'
      → P w
      → P w') where
  device_in_station_keeps :
      (path : String) (o : Option Props) (c c' : Client) (w w' : World)
      → device_in_station path o (c, w) ≡ ok (c', w')
      → P w
      → P w'
  unfolding device_in_station
  device_in_station_keeps path o c c' w w' e v = grind (arith, devices)

  visit_station_keeps :
      (bus : Bus) (path : String) (ifaces : Interfaces) (o : Option Props) (c c' : Client)
      (w w' : World)
      → visit_station bus path ifaces o (c, w) ≡ ok (c', w')
      → P w
      → P w'
  unfolding visit_station
  visit_station_keeps bus path ifaces o c c' w w' e v =
      grind (arith, device_in_station_keeps, stations)

  visit_device_keeps :
      (path : String) (ifaces : Interfaces) (c c' : Client) (w w' : World)
      → visit_device path ifaces (c, w) ≡ ok (c', w')
      → P w
      → P w'
  unfolding visit_device
  visit_device_keeps path ifaces c c' w w' e v = grind (arith, device_in_station_keeps)

  visit_keeps :
      (bus : Bus) (object : String × Interfaces) (c c' : Client) (w w' : World)
      (names names' : List String)
      → visit bus object (c, w, names) ≡ ok (c', w', names')
      → P w
      → P w'
  unfolding visit
  visit_keeps bus (path, ifaces) c c' w w' names names' e v =
      let ((c1, w1), later, at_station) =
        two_steps (visit_station bus path ifaces (lookup station_iface ifaces) (c, w)) _ e in
      let ((c2, w2), last, at_device) = two_steps (visit_device path ifaces (c1, w1)) _ later in
      let (names2, ends, named) =
        two_steps (known_name (lookup known_network_iface ifaces) names) (λ ns. ok (c2, w2, ns))
          last in
      let v1 = visit_station_keeps bus path ifaces _ c c1 w w1 at_station v in
      let v2 = visit_device_keeps path ifaces c1 c2 w1 w2 at_device v1 in
      subst (λ f. P f.1) (ok-injective (c2, w2, names2) (c', w', names') ends) v2

  pub visit_all_keeps :
      (bus : Bus) (objects : Objects) (c c' : Client) (w w' : World) (names names' : List String)
      → visit_all bus objects (c, w, names) ≡ ok (c', w', names')
      → P w
      → P w'
  unfolding visit_all
  visit_all_keeps bus [] c c' w w' names names' e v =
      subst (λ f. P f.1) (ok-injective (c, w, names) (c', w', names') e) v
  visit_all_keeps bus (object ∷ objects) c c' w w' names names' e v =
      let ((c1, w1, names1), later, now) =
        two_steps (visit bus object (c, w, names)) (λ f. visit_all bus objects f) e in
      visit_all_keeps bus objects c1 c' w1 w' names1 names' later
        (visit_keeps bus object c c1 w w1 names names1 now v)

  conclude_keeps :
      (saves : (names : List String) (w : World) → P w → P (store_saved names w)) (c : Client)
      (w : World) (names : List String)
      → P w
      → P (conclude (c, w, names)).1
  unfolding conclude
  conclude_keeps saves c w names v = elim (Bool-cases (c.station_path =s= "")) [
    | inl e ↦ rw e v
    | inr n ↦ rw n (saves names w v)
  ]

  pub find_device_keeps :
      (saves : (names : List String) (w : World) → P w → P (store_saved names w)) (bus : Bus)
      (c c' : Client) (w w' : World) (err : Option String)
      → find_device bus c w ≡ ok (c', w', err)
      → P w
      → P w'
  unfolding find_device
  find_device_keeps saves bus c c' w w' err e v = elim (Option-cases bus.managed_objects) [
    | inl none_there ↦
        subst (λ f. P f.1)
          (ok-injective
            (c, w, some ("failed to get managed objects: " <> bus.managed_objects_error))
            (c', w', err) (rw (none_there, find_device) at e))
          v
    | inr (objects, there) ↦
        let ((c1, w1, names), ends, all) =
          two_steps (visit_all bus objects (c, w, [])) (λ f. ok (conclude f))
            (rw (there, find_device) at e) in
        subst (λ f. P f.1) (ok-injective (conclude (c1, w1, names)) (c', w', err) ends)
          (conclude_keeps saves c1 w1 names (visit_all_keeps bus objects c c1 w w1 [] names all v))
  ]
