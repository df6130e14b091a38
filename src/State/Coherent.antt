-- ===== src/State/Coherent.antt =====
-- internal/state/state.go: what every part of the daemon keeps true of the shared state.
use x_network.Base.{◌≤◌, ◌≡◌, ◌≢◌, ◌⊎◌, true, false, All, arith}
use x_network.State.{State, Network, initial, obtaining}

-- A network as the daemon lists it: the strength is a percentage, and the frequency is not known.
abbrev pub IsShown : Network → Type 0
IsShown net = (net.signal ≤ 100) × (net.frequency ≡ 0)

-- Strengths are percentages. Frequencies and the state "obtaining" are never set. A URL of a
-- portal comes with a portal, the name of a hotspot with a hotspot, the name and the index of a
-- USB interface with its detection, and tethering is available only on a detected one.
pub record IsCoherent (s : State) : Type 0 where
  pub strength : s.signal_strength ≤ 100
  pub listed : All IsShown s.networks
  pub no_frequency : s.frequency ≡ 0
  pub not_obtaining : s.connection_state ≢ obtaining
  pub portal : (s.captive_portal_detected ≡ true) ⊎ (s.captive_portal_url ≡ "")
  pub hotspot : (s.hotspot_active ≡ true) ⊎ (s.hotspot_ssid ≡ "")
  pub usb_named :
      (s.usb_interface_detected ≡ true)
      ⊎ ((s.usb_interface_name ≡ "") × (s.usb_interface_index ≡ 0))
  pub usb_available : (s.usb_tethering_available ≡ false) ⊎ (s.usb_interface_detected ≡ true)

pub initial-IsCoherent : IsCoherent initial
initial-IsCoherent = ground arith
