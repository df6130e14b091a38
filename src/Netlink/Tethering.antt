-- ===== src/Netlink/Tethering.antt =====
-- internal/netlink/watcher.go: the life of a USB interface in the state, from the link events
-- and the addresses, and what the watcher leaves to the WiFi client.
use x_network.Base.{
  ℕ, ◌≡◌, String, Bool, true, false, not, ◌&&◌, List, [], eq_iff, arith, if◌then◌else◌, ◌==◌, ◌=s=◌,
  ◌||◌,
}
use x_network.State.{State, connecting, obtaining, connected, same_state}
use x_network.Runtime.{World, state_of, modify, modify_with}
use x_network.Sysfs.{Sysfs}
use x_network.Netlink.Kernel.{
  Link, Address, Kernel, has_carrier, is_usb_interface, ip_text, check_default_route_via_interface,
}
use x_network.Netlink.Link.{Watcher, link_removed, link_present, handle_link_message}
use x_network.Netlink.Address.{address_added}

-- Which USB interface is present in a state, and how.
pub record Tracks (link : Link) (s : State) : Type 0 where
  pub detected : s.usb_interface_detected ≡ true
  pub name : s.usb_interface_name ≡ link.name
  pub index : s.usb_interface_index ≡ link.index
  pub available : s.usb_tethering_available ≡ has_carrier link

-- The same link event a second time changes nothing more and starts nothing.
pub link_present_twice :
    (fs : Sysfs) (link : Link) (s : State)
    → link_present fs link (link_present fs link s).0 ≡ ((link_present fs link s).0, [])
unfolding link_present
link_present_twice fs link s = ground (
  arith,
  eq_iff link.name "",
  eq_iff s.interface_name "",
  eq_iff s.interface_name link.name,
  eq_iff link.name link.name,
)

-- The removal of a USB interface clears what its link event set up, and the removal of another
-- index leaves the state alone.
pub link_removed-link_present :
    (fs : Sysfs) (link : Link) (s : State) (index : ℕ)
    → is_usb_interface fs link.name ≡ true
    → link_removed index (link_present fs link s).0 ≡ (
        if index == link.index
        then record s {
          usb_interface_detected = false;
          usb_tethering_available = false;
          usb_tethering_connected = false;
          usb_interface_name = "";
          usb_interface_index = 0;
        }
        else (link_present fs link s).0)
unfolding link_present link_removed
link_removed-link_present fs link s index usb = ground arith

-- Link events leave the WiFi fields to the client of iwd.
abbrev pub SameWifi : State → State → Type 0
SameWifi s t =
    (t.connection_state ≡ s.connection_state)
    × (t.active_ssid ≡ s.active_ssid)
    × (t.connecting_ssid ≡ s.connecting_ssid)
    × (t.wifi_enabled ≡ s.wifi_enabled)
    × (t.networks ≡ s.networks)
    × (t.saved_networks ≡ s.saved_networks)

-- Whatever a link message says, of whichever interface, the connection, the SSIDs, the WiFi switch
-- and the lists of networks stay.
pub handle_link_message-SameWifi :
    (k : Kernel) (payload : List ℕ) (gone : Bool) (watcher : Watcher) (w : World)
    → SameWifi (state_of w) (state_of (handle_link_message k payload gone watcher w).1)
unfolding handle_link_message modify modify_with
handle_link_message-SameWifi k payload gone watcher w = ground arith

-- Whether an address belongs to the USB interface, or to the interface of the state.
abbrev pub on_usb : Kernel → String → State → Bool
on_usb k iface s = is_usb_interface k.sysfs iface && s.usb_interface_name =s= iface

abbrev pub on_other : Kernel → String → State → Bool
on_other k iface s = not (is_usb_interface k.sysfs iface) && s.interface_name =s= iface

-- A new address is shown if it belongs to the USB interface or to the interface of the state.
-- Tethering is connected once the USB interface has an address and a default route, and an
-- address does not end it. The phases "connecting" and "obtaining", and no other, end with an
-- address on the interface of the state.
pub address_added_fields :
    (k : Kernel) (msg : Address) (iface : String) (s : State)
    → let t = address_added k msg iface s in
      (t.ip_address
        ≡ (if on_usb k iface s || on_other k iface s then ip_text msg.address else s.ip_address))
      × (t.usb_tethering_connected ≡ (
          s.usb_tethering_connected
          || (on_usb k iface s && check_default_route_via_interface k msg.index)))
      × (t.connection_state ≡ (
          if on_other k iface s
            && (same_state s.connection_state connecting || same_state s.connection_state obtaining)
          then connected
          else s.connection_state))
unfolding address_added
address_added_fields k msg iface s = ground arith
