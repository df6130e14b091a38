-- ===== src/Netlink/Kernel.antt =====
-- internal/netlink/watcher.go: what the watcher reads of the kernel, by way of rtnetlink and
-- sysfs, and the questions that it asks there.
use x_network.Base.{
  ℕ, String, Bool, true, false, not, ◌&&◌, ◌||◌, List, [], ◌∷◌, Option, none, some, ◌≡◌, ◌↔◌, ◌==◌,
  if◌then◌else◌, Any, arith, ◌≢◌,
}
use x_network.Sysfs.{Sysfs}

-- rtnetlink.LinkMessage, as far as it is read. The hardware address is given as its text.
pub record Link : Type 0 where
  pub index : ℕ  -- uint32
  pub name : String
  pub oper_state_up : Bool
  pub carrier : Option ℕ
  pub hardware_address : String

-- net.IP: its text, and whether it has a four-byte form.
pub record Ip : Type 0 where
  pub text : String
  pub is_ipv4 : Bool

-- rtnetlink.AddressMessage; a missing address is nil.
pub record Address : Type 0 where
  pub index : ℕ  -- uint32
  pub address : Option Ip

pub record Route : Type 0 where
  pub dst : Option Ip
  pub gateway : Option Ip
  pub out_iface : ℕ  -- uint32

-- The kernel at one moment: its lists, or `none` for a failed request, and how the library
-- decodes the two kinds of messages.
pub record Kernel : Type 0 where
  pub links : Option (List Link)
  pub addresses : Option (List Address)
  pub routes : Option (List Route)
  pub sysfs : Sysfs
  pub parse_link : List ℕ → Option Link
  pub parse_address : List ℕ → Option Address

pub record Message : Type 0 where
  pub kind : ℕ  -- uint16
  pub payload : List ℕ

abbrev pub rtm_newlink : ℕ
rtm_newlink = 16

abbrev pub rtm_dellink : ℕ
rtm_dellink = 17

abbrev pub rtm_newaddr : ℕ
rtm_newaddr = 20

abbrev pub rtm_deladdr : ℕ
rtm_deladdr = 21

-- A nil address is printed as "<nil>".
abbrev pub ip_text : Option Ip → String
ip_text none = "<nil>"
ip_text (some ip) = ip.text

-- ip != nil && ip.To4() != nil
abbrev pub is_ipv4 : Option Ip → Bool
is_ipv4 none = false
is_ipv4 (some ip) = ip.is_ipv4

abbrev pub has_carrier : Link → Bool
has_carrier link = elim link.carrier [ none ↦ false | some c ↦ c == 1 ]

unfoldable pub is_usb_interface : Sysfs → String → Bool
is_usb_interface fs name = fs.on_usb_bus name

unfoldable pub is_wifi_interface : Sysfs → String → Bool
is_wifi_interface fs name = fs.exists name "wireless"

unfoldable pub is_physical_interface : Sysfs → String → Bool
is_physical_interface fs name = fs.exists name "device"

unfoldable pub get_connection_type : Sysfs → String → String
unfolding is_usb_interface is_wifi_interface is_physical_interface
get_connection_type fs iface =
    if is_usb_interface fs iface
    then "usb"
    else (if is_wifi_interface fs iface
        then "wifi"
        else (if is_physical_interface fs iface then "ethernet" else "unknown"))

abbrev pub is_set : Option Ip → Bool
is_set none = false
is_set (some ip) = true

abbrev pub leads_out : ℕ → Route → Bool
leads_out iface r = not (is_set r.dst) && is_set r.gateway && r.out_iface == iface

abbrev any_leads_out : ℕ → List Route → Bool
any_leads_out iface [] = false
any_leads_out iface (r ∷ rs) = leads_out iface r || any_leads_out iface rs

unfoldable pub check_default_route_via_interface : Kernel → ℕ → Bool
check_default_route_via_interface k iface = elim k.routes [
  | none ↦ false
  | some routes ↦ any_leads_out iface routes
]

-- A default route by a gateway, over the interface.
abbrev pub IsDefaultVia : ℕ → Route → Type 0
IsDefaultVia iface r = (r.dst ≡ none) × (r.gateway ≢ none) × (r.out_iface ≡ iface)

leads_out_iff : (iface : ℕ) (r : Route) → (leads_out iface r ≡ true) ↔ IsDefaultVia iface r
leads_out_iff iface r = ground arith

any_leads_out_iff :
    (iface : ℕ) (rs : List Route) → (any_leads_out iface rs ≡ true) ↔ Any (IsDefaultVia iface) rs
any_leads_out_iff iface [] = ((λ e. cc), (λ h. absurd h))
any_leads_out_iff iface (r ∷ rs) = ground (arith, leads_out_iff iface r, any_leads_out_iff iface rs)

-- The check finds a default route exactly when the kernel lists one by a gateway over the
-- interface.
pub check_default_route_iff :
    (k : Kernel) (routes : List Route) (iface : ℕ)
    → k.routes ≡ some routes
    → (check_default_route_via_interface k iface ≡ true) ↔ Any (IsDefaultVia iface) routes
unfolding check_default_route_via_interface
check_default_route_iff k routes iface e = ground (arith, any_leads_out_iff iface routes)
