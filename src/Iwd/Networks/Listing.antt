-- ===== src/Iwd/Networks/Listing.antt =====
-- internal/iwd/client.go: the list that `fetchNetworksFromIWD` makes of iwd's entries.
use x_network.Base.{
  ◌≤◌, ◌≡◌, refl, ◌∙◌, ◌≢◌, ◌⊎◌, inl, inr, String, true, List, [], ◌∷◌, none, some, map, All, arith,
  eq_iff, Option-cases,
}
use x_network.Base.Int.{ℤ, quot}
use x_network.Base.Outcome.{ok, ◌>>=◌, two_steps}
use x_network.Variant.{Props, as_string, as_bool, as_path, when_present}
use x_network.State.{Network}
use x_network.State.Signal.{dbm_to_percent, dbm_to_percent_le}
use x_network.Iwd.Bus.{Bus}
use x_network.Iwd.Networks.{network_of_props, mark_active, collect}

-- The paths of the entries whose properties iwd gives.
abbrev pub readable : Bus → List (String × ℤ) → List String
readable bus [] = []
readable bus ((path, rssi) ∷ entries) = elim (bus.network_props path) [
  | none ↦ readable bus entries
  | some props ↦ path ∷ readable bus entries
]

network_of_props_path :
    (path : String) (rssi : ℤ) (props : Props) (net : Network)
    → network_of_props path rssi props ≡ ok net
    → (net.object_path ≡ path) × (net.signal ≡ dbm_to_percent (quot rssi 100))
unfolding network_of_props when_present as_string as_bool as_path
network_of_props_path path rssi props net e = ground arith

ok-injective : {A : Type 0} (a b : A) → ok a ≡ ok b → a ≡ b
ok-injective a b e = cc

-- What the list says of a network, whatever iwd says of it.
abbrev pub IsListed : String → Network → Type 0
IsListed active net =
    (net.signal ≤ 100) × ((net.ssid ≢ active) ⊎ ((active ≡ "") ⊎ (net.connected ≡ true)))

mark_active-IsListed :
    (active : String) (net : Network) → net.signal ≤ 100 → IsListed active (mark_active active net)
mark_active-IsListed active net h = ground (arith, eq_iff net.ssid active, eq_iff active "")

object_path-mark_active :
    (active : String) (net : Network) → (mark_active active net).object_path ≡ net.object_path
object_path-mark_active active net = ground arith

cons_path :
    (net : Network) (nets : List Network) {path : String} {paths : List String}
    → net.object_path ≡ path
    → map (λ net. net.object_path) nets ≡ paths
    → map (λ net. net.object_path) (net ∷ nets) ≡ path ∷ paths
cons_path net nets e es = cc

-- If no property has a type that panics, the list has the readable entries in their order, each
-- with a percentage of at most 100, and those with the active SSID are marked as connected.
pub collect-IsListed :
    (bus : Bus) (active : String) (entries : List (String × ℤ)) (nets : List Network)
    → collect bus active entries ≡ ok nets
    → (map (λ net. net.object_path) nets ≡ readable bus entries) × All (IsListed active) nets
unfolding collect
collect-IsListed bus active [] nets e = rw (← ok-injective [] nets e) (refl, tt)
collect-IsListed bus active ((path, rssi) ∷ entries) nets e =
    elim (Option-cases (bus.network_props path)) [
      | inl none_there ↦
          rw (none_there, readable)
            (collect-IsListed bus active entries nets (rw (none_there, collect) at e))
      | inr (props, there) ↦
          let (net, r1, e1) =
            two_steps (network_of_props path rssi props)
              (λ net. collect bus active entries >>= λ ns. ok (mark_active active net ∷ ns))
              (rw (there, collect) at e) in
          let (ns, r2, e2) =
            two_steps (collect bus active entries) (λ ns. ok (mark_active active net ∷ ns)) r1 in
          let (paths, listed) = collect-IsListed bus active entries ns e2 in
          let (same_path, same_signal) = network_of_props_path path rssi props net e1 in
          rw (there, readable, ← ok-injective (mark_active active net ∷ ns) nets r2)
            (
              cons_path (mark_active active net) ns (object_path-mark_active active net ∙ same_path)
                  paths,
              (
                mark_active-IsListed active net
                    (rw same_signal (dbm_to_percent_le (quot rssi 100))),
                listed,
              ),
            )
    ]
