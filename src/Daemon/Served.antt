-- ===== src/Daemon/Served.antt =====
-- internal/dbus/properties.go on the daemon as a whole: what clients can ever read of it.
use x_network.Base.{◌≤◌, ◌≡◌, refl, ap, ◌∙◌, List, [], ◌∷◌, All}
use x_network.Variant.{NetworkDbus, uint32, string, returns}
use x_network.State.{State, Network}
use x_network.State.Signal.{frequency_to_band}
use x_network.State.Coherent.{IsShown}
use x_network.Runtime.{state_of}
use x_network.Dbus.Properties.{interface, networks_to_dbus, property, get}
use x_network.Daemon.System.{System, IsStarted, DaemonReach, reach-IsCoherent}

-- A network as it is sent, without a frequency.
abbrev pub IsServed : NetworkDbus → Type 0
IsServed net = (net.signal ≤ 100) × (net.frequency ≡ 0)

networks_to_dbus-IsServed :
    (nets : List Network) → All IsShown nets → All IsServed (networks_to_dbus nets)
unfolding networks_to_dbus
networks_to_dbus-IsServed [] h = tt
networks_to_dbus-IsServed (net ∷ nets) (shown, h) = (shown, networks_to_dbus-IsServed nets h)

get_frequency : (st : State) → get st interface "Frequency" ≡ returns (uint32 st.frequency)
unfolding get property
get_frequency st = refl

get_band :
    (st : State) → get st interface "Band" ≡ returns (string (frequency_to_band st.frequency))
unfolding get property
get_band st = refl

band_of_none : frequency_to_band 0 ≡ "unknown"
unfolding frequency_to_band
band_of_none = refl

-- Whatever has happened since the start, clients read the frequency 0 and the band "unknown", and
-- every network that they are sent has the frequency 0, and a percentage as its signal.
pub reach-IsServed :
    (s t : System)
    → IsStarted s
    → DaemonReach s t
    → (get (state_of t.world) interface "Frequency" ≡ returns (uint32 0))
      × (get (state_of t.world) interface "Band" ≡ returns (string "unknown"))
      × All IsServed (networks_to_dbus (state_of t.world).networks)
reach-IsServed s t started reach =
    let v = reach-IsCoherent s t started reach in
    (
      get_frequency (state_of t.world) ∙ ap (λ f. returns (uint32 f)) v.no_frequency,
      get_band (state_of t.world)
          ∙ ap (λ f. returns (string (frequency_to_band f))) v.no_frequency
          ∙ ap (λ b. returns (string b)) band_of_none,
      networks_to_dbus-IsServed (state_of t.world).networks v.listed,
    )
