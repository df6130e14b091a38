-- ===== src/Netlink/Address.antt =====
-- internal/netlink/watcher.go: `handleAddressMessage` and `fetchGateway`.
use x_network.Base.{
  ℕ, ◌-◌, String, Bool, true, false, not, ◌&&◌, ◌||◌, List, [], ◌∷◌, Option, none, some, ltb, ◌==◌,
  ◌=s=◌, if◌then◌else◌,
}
use x_network.State.{State, connecting, obtaining, connected, same_state}
use x_network.Runtime.{go, fetch_weather, World, state_of, act, modify}
use x_network.Netlink.Kernel.{
  Link, Ip, Address, Route, Kernel, ip_text, is_ipv4, is_set, is_usb_interface,
  check_default_route_via_interface,
}

-- The loop over the links, with its break; the empty text if no link has the index.
unfoldable pub link_name : ℕ → List Link → String
link_name index [] = ""
link_name index (link ∷ links) = if link.index == index then link.name else link_name index links

unfoldable pub usb_address : Kernel → Address → State → State
usb_address k msg st =
    let addressed = record st { ip_address = ip_text msg.address } in
    if check_default_route_via_interface k msg.index
    then record addressed { usb_tethering_connected = true; connection_type = "usb" }
    else addressed

unfoldable pub other_address : Address → State → State
other_address msg st =
    let addressed = record st { ip_address = ip_text msg.address } in
    if same_state st.connection_state connecting || same_state st.connection_state obtaining
    then record addressed { connection_state = connected }
    else addressed

-- The closure, for the interface's name.
unfoldable pub address_added : Kernel → Address → String → State → State
unfolding usb_address other_address is_usb_interface
address_added k msg iface st =
    if is_usb_interface k.sysfs iface
    then (if st.usb_interface_name =s= iface then usb_address k msg st else st)
    else (if st.interface_name =s= iface then other_address msg st else st)

-- 60 seconds.
abbrev pub resume_window : ℕ
resume_window = 60_000_000_000

abbrev pub wants_resume_weather : ℕ → Option Ip → State → Bool
wants_resume_weather now ip st =
    st.was_resumed
    && not st.weather_triggered
    && ltb (now - st.resume_timestamp) resume_window
    && is_ipv4 ip

abbrev pub wants_startup_weather : Option Ip → State → Bool
wants_startup_weather ip st = st.is_startup && not st.weather_triggered && is_ipv4 ip

-- Both tests read one copy of the state, taken before either branch.
unfoldable pub trigger_weather : ℕ → Option Ip → World → World
trigger_weather now ip w =
    let current = state_of w in
    let resumed =
      if wants_resume_weather now ip current
      then modify (λ st. record st { was_resumed = false; weather_triggered = true })
          (act (go (fetch_weather "resume")) w)
      else w in
    if wants_startup_weather ip current
    then modify (λ st. record st { is_startup = false; weather_triggered = true })
        (act (go (fetch_weather "startup")) resumed)
    else resumed

-- The first route with no destination and a gateway.
unfoldable pub default_gateway : List Route → Option String
default_gateway [] = none
default_gateway (r ∷ rs) =
    if not (is_set r.dst) && is_set r.gateway then some (ip_text r.gateway) else default_gateway rs

set_gateway : Option String → World → World
set_gateway none w = w
set_gateway (some gateway) w = modify (λ st. record st { gateway = gateway }) w

unfoldable pub fetch_gateway : Kernel → World → World
unfolding set_gateway
fetch_gateway k w = elim k.routes [
  | none ↦ w
  | some routes ↦ set_gateway (default_gateway routes) w
]

unfoldable pub address_event : ℕ → Kernel → Address → String → World → World
address_event now k msg iface w =
    if iface =s= "" || iface =s= "lo"
    then w
    else fetch_gateway k (trigger_weather now msg.address (modify (address_added k msg iface) w))

address_on : ℕ → Kernel → Option (List Link) → Address → World → World
address_on now k none msg w = w
address_on now k (some links) msg w = address_event now k msg (link_name msg.index links) w

unfoldable pub handle_address : ℕ → Kernel → Option Address → Bool → World → World
unfolding address_on
handle_address now k none is_removed w = w
handle_address now k (some msg) is_removed w =
    if is_removed then w else address_on now k k.links msg w

unfoldable pub handle_address_message : ℕ → Kernel → List ℕ → Bool → World → World
unfolding handle_address
handle_address_message now k payload is_removed w =
    handle_address now k (k.parse_address payload) is_removed w
