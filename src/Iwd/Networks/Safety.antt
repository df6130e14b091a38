-- ===== src/Iwd/Networks/Safety.antt =====
-- internal/iwd/client.go: reading networks does not panic on properties of iwd's types.
use x_network.Base.{String, List, [], ◌∷◌, Option, none, some, lookup, Option-cases, inl, inr}
use x_network.Base.Int.{ℤ}
use x_network.Base.Outcome.{Outcome, IsSafe, IsSafe->>=}
use x_network.Variant.{Variant, Props, as_string, as_bool, as_path, Accepts, when_present}
use x_network.State.{State}
use x_network.Runtime.{World, state_of}
use x_network.Iwd.Bus.{Bus}
use x_network.Iwd.Networks.{network_of_props, collect, fetch_networks, refresh_networks}

-- The properties of a network that are there have the types that iwd documents.
abbrev pub IsTypedNetwork : Props → Type 0
IsTypedNetwork ps =
    Accepts as_string (lookup "Name" ps)
    × Accepts as_string (lookup "Type" ps)
    × Accepts as_bool (lookup "Connected" ps)
    × Accepts as_path (lookup "KnownNetwork" ps)

abbrev pub IsTypedBus : Bus → Type 0
IsTypedBus bus =
    (path : String) → elim (bus.network_props path) [ none ↦ Unit | some ps ↦ IsTypedNetwork ps ]

pub when_present-IsSafe :
    {A S : Type 0} (o : Option Variant) (read : Variant → Outcome A) (set : A → S → S) (s : S)
    → Accepts read o
    → IsSafe (when_present o read set s)
unfolding when_present
when_present-IsSafe none read set s h = tt
when_present-IsSafe (some v) read set s (a, e) = rw e tt

network_of_props-IsSafe :
    (path : String) (rssi : ℤ) (ps : Props)
    → IsTypedNetwork ps
    → IsSafe (network_of_props path rssi ps)
unfolding network_of_props
network_of_props-IsSafe path rssi ps (name, kind, conn, known) =
    IsSafe->>= _ _ (when_present-IsSafe _ _ _ _ name) λ n1.
      IsSafe->>= _ _ (when_present-IsSafe _ _ _ _ kind) λ n2.
        IsSafe->>= _ _ (when_present-IsSafe _ _ _ _ conn) λ n3. when_present-IsSafe _ _ _ _ known

collect-IsSafe :
    (bus : Bus) (active : String) (entries : List (String × ℤ))
    → IsTypedBus bus
    → IsSafe (collect bus active entries)
unfolding collect
collect-IsSafe bus active [] typed = tt
collect-IsSafe bus active ((path, rssi) ∷ entries) typed =
    let rest = collect-IsSafe bus active entries typed in
    elim (Option-cases (bus.network_props path)) [
      | inl e ↦ rw (e, collect) rest
      | inr (ps, e) ↦
          rw (e, collect)
            (IsSafe->>= _ _ (network_of_props-IsSafe path rssi ps (rw e at (typed path)))
              λ net. IsSafe->>= _ _ rest λ nets. tt)
    ]

fetch_networks-IsSafe :
    (bus : Bus) (station : String) (st : State)
    → IsTypedBus bus
    → IsSafe (fetch_networks bus station st)
unfolding fetch_networks
fetch_networks-IsSafe bus station st typed = elim (Option-cases (bus.ordered_networks station)) [
  | inl e ↦ rw (e, fetch_networks) tt
  | inr (entries, e) ↦
      rw (e, fetch_networks)
        (IsSafe->>= _ _ (collect-IsSafe bus st.active_ssid entries typed) λ nets. tt)
]

pub refresh_networks-IsSafe :
    (bus : Bus) (station : String) (w : World)
    → IsTypedBus bus
    → IsSafe (refresh_networks bus station w)
unfolding refresh_networks
refresh_networks-IsSafe bus station w typed =
    IsSafe->>= _ _ (fetch_networks-IsSafe bus station (state_of w) typed) λ nets. tt
