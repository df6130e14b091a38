-- ===== src/Netlink/Fetch.antt =====
-- internal/netlink/watcher.go: `fetchInterfaces` and `fetchAddresses`, run once at the start.
use x_network.Base.{
  String, true, ◌&&◌, List, [], ◌∷◌, Option, none, some, ◌==◌, ◌=s=◌, if◌then◌else◌,
}
use x_network.State.{State}
use x_network.Runtime.{Effect, World, state_of, modify, modify_with}
use x_network.Sysfs.{Sysfs}
use x_network.Netlink.Kernel.{
  Link, Address, Kernel, Ip, has_carrier, is_usb_interface, get_connection_type,
}
use x_network.Netlink.Link.{usb_detected, usb_started}

-- Here a missing carrier leaves the flags alone, and DHCP starts whatever the flag was.
unfoldable pub usb_at_start : Link → State → State × List Effect
usb_at_start link st =
    let found = usb_detected link st in
    if has_carrier link
    then (record found { usb_tethering_available = true }, usb_started link)
    else (found, [])

unfoldable pub other_at_start : Sysfs → Link → State → State
other_at_start fs link st = record st {
  interface_name = link.name;
  mac_address = link.hardware_address;
  connection_type = get_connection_type fs link.name;
}

unfoldable pub fetch_interface : Sysfs → Link → World → World
unfolding usb_at_start other_at_start is_usb_interface
fetch_interface fs link w =
    if link.name =s= "lo"
    then w
    else (if is_usb_interface fs link.name
        then modify_with (usb_at_start link) w
        else (if link.oper_state_up then modify (other_at_start fs link) w else w))

unfoldable pub fetch_each : Sysfs → List Link → World → World
unfolding fetch_interface
fetch_each fs [] w = w
fetch_each fs (link ∷ links) w = fetch_each fs links (fetch_interface fs link w)

unfoldable pub fetch_interfaces : Kernel → World → World
unfolding fetch_each
fetch_interfaces k w = elim k.links [ none ↦ w | some links ↦ fetch_each k.sysfs links w ]

unfoldable pub set_address : Option Ip → State → State
set_address none s = s
set_address (some ip) s = record s { ip_address = ip.text }

-- The inner loop ends at the first link that fits.
unfoldable pub match_link : String → Address → List Link → World → World
unfolding set_address
match_link iface addr [] w = w
match_link iface addr (link ∷ links) w =
    let rest = match_link iface addr links w in
    if link.index == addr.index && link.name =s= iface
    then modify (set_address addr.address) w
    else rest

unfoldable pub match_addresses : String → List Link → List Address → World → World
unfolding match_link
match_addresses iface links [] w = w
match_addresses iface links (addr ∷ addrs) w =
    match_addresses iface links addrs (match_link iface addr links w)

-- A failed list of links counts as no link.
abbrev links_or_none : Option (List Link) → List Link
links_or_none none = []
links_or_none (some links) = links

unfoldable pub fetch_addresses : Kernel → World → World
unfolding match_addresses
fetch_addresses k w = elim k.addresses [
  | none ↦ w
  | some addrs ↦ match_addresses (state_of w).interface_name (links_or_none k.links) addrs w
]
