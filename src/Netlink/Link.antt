-- ===== src/Netlink/Link.antt =====
-- internal/netlink/watcher.go: `handleLinkMessage`.
use x_network.Base.{
  ℕ, String, Bool, true, false, ◌&&◌, ◌||◌, List, [], ◌∷◌, Option, none, some, ◌==◌, ◌=s=◌,
  if◌then◌else◌,
}
use x_network.State.{State}
use x_network.Runtime.{Effect, exec, go, bring_up, dhcp, World, act, modify, modify_with}
use x_network.Sysfs.{Sysfs}
use x_network.Netlink.Kernel.{Link, Kernel, has_carrier, is_usb_interface, get_connection_type}

-- `lastLinkState`: per interface index the text "up:carrier" that was logged last.
pub record Watcher : Type 0 where
  pub last_link_state : List (ℕ × String)
  pub stop_closed : Bool  -- stopCh has been closed

abbrev pub new_watcher : Watcher
new_watcher = record { last_link_state = []; stop_closed = false }

state_key : Bool → Bool → String
state_key true true = "true:true"
state_key true false = "true:false"
state_key false true = "false:true"
state_key false false = "false:false"

-- A missing index reads as the empty text.
abbrev pub last_of : ℕ → List (ℕ × String) → String
last_of i [] = ""
last_of i ((j, key) ∷ m) = if j == i then key else last_of i m

pub note_link : ℕ → String → Watcher → Watcher
note_link index key w =
    if last_of index w.last_link_state =s= key
    then w
    else record w { last_link_state = (index, key) ∷ w.last_link_state }

-- The closure for an interface that was removed.
unfoldable pub link_removed : ℕ → State → State
link_removed index st =
    if st.usb_interface_index == index
    then record st {
      usb_interface_detected = false;
      usb_tethering_available = false;
      usb_tethering_connected = false;
      usb_interface_name = "";
      usb_interface_index = 0;
    }
    else st

abbrev pub usb_detected : Link → State → State
usb_detected link st = record st {
  usb_interface_detected = true;
  usb_interface_name = link.name;
  usb_interface_index = link.index;
}

-- Newest first: DHCP is started after the interface is brought up.
abbrev pub usb_started : Link → List Effect
usb_started link =
    if link.oper_state_up
    then go (dhcp link.name) ∷ []
    else go (dhcp link.name) ∷ go (bring_up link.name) ∷ []

-- The first half of the closure for a link that is there: the USB interface.
unfoldable pub usb_link : Link → State → State × List Effect
usb_link link st =
    let found = usb_detected link st in
    if has_carrier link
    then (if st.usb_tethering_available
        then (found, [])
        else (record found { usb_tethering_available = true }, usb_started link))
    else (record found { usb_tethering_available = false; usb_tethering_connected = false }, [])

-- The second half: the other interfaces.
unfoldable pub other_link : Sysfs → Link → State → State
other_link fs link st =
    if link.oper_state_up && (st.interface_name =s= link.name || st.interface_name =s= "")
    then record st {
      interface_name = link.name;
      connection_type = get_connection_type fs link.name;
    }
    else st

unfoldable pub link_present : Sysfs → Link → State → State × List Effect
unfolding usb_link other_link is_usb_interface
link_present fs link st =
    if is_usb_interface fs link.name then usb_link link st else (other_link fs link st, [])

link_event : Sysfs → Link → Bool → Watcher → World → Watcher × World
unfolding note_link state_key link_removed link_present
link_event fs link is_removed watcher w =
    if link.name =s= "" || link.name =s= "lo"
    then (watcher, w)
    else (if is_removed then (watcher, modify (link_removed link.index) w) else (
      note_link link.index (state_key link.oper_state_up (has_carrier link)) watcher,
      modify_with (link_present fs link) w,
    ))

unfoldable pub handle_link : Option Link → Sysfs → Bool → Watcher → World → Watcher × World
unfolding link_event
handle_link none fs is_removed watcher w = (watcher, w)
handle_link (some link) fs is_removed watcher w = link_event fs link is_removed watcher w

-- Bytes that cannot be decoded are dropped.
unfoldable pub handle_link_message : Kernel → List ℕ → Bool → Watcher → World → Watcher × World
unfolding handle_link
handle_link_message k payload is_removed watcher w =
    handle_link (k.parse_link payload) k.sysfs is_removed watcher w

-- The bodies of the two goroutines.
unfoldable pub bring_up_interface : String → World → World
bring_up_interface iface w = act (exec ("sudo" ∷ "ip" ∷ "link" ∷ "set" ∷ iface ∷ "up" ∷ [])) w

unfoldable pub run_dhcp_on_interface : String → World → World
run_dhcp_on_interface iface w = act (exec ("sudo" ∷ "dhcpcd" ∷ "-4" ∷ "-q" ∷ iface ∷ [])) w
