-- ===== src/Netlink/UsbState.antt =====
-- internal/netlink/watcher.go: the USB tethering fields of the state, over any run of the watcher.
use x_network.Base.{ℕ, ◌≡◌, ◌≢◌, String, true, false, List, eq_iff, arith, ◌⊎◌}
use x_network.State.{State}
use x_network.Runtime.{World, state_of}
use x_network.Sysfs.{Sysfs}
use x_network.Netlink.Kernel.{Link, Address, Kernel}
use x_network.Netlink.Link.{Watcher, link_removed, link_present}
use x_network.Netlink.Address.{address_added}
use x_network.Netlink.Fetch.{usb_at_start, other_at_start, set_address}
use x_network.Netlink.Watch.{Round, run}
use x_network.Netlink.Kept.{Keeps, run_keeps}

-- Available, or connected, or without a name and index only as the interface is detected or not.
pub record UsbInv (s : State) : Type 0 where
  pub available_detected : (s.usb_tethering_available ≡ false) ⊎ (s.usb_interface_detected ≡ true)
  pub connected_detected : (s.usb_tethering_connected ≡ false) ⊎ (s.usb_interface_detected ≡ true)
  pub undetected :
      (s.usb_interface_detected ≡ true)
      ⊎ ((s.usb_interface_name ≡ "") × (s.usb_interface_index ≡ 0))

link_removed-UsbInv : (index : ℕ) (s : State) → UsbInv s → UsbInv (link_removed index s)
unfolding link_removed
link_removed-UsbInv index s v = ground arith

link_present-UsbInv :
    (fs : Sysfs) (link : Link) (s : State) → UsbInv s → UsbInv (link_present fs link s).0
unfolding link_present
link_present-UsbInv fs link s v = ground arith

address_added-UsbInv :
    (k : Kernel) (msg : Address) (iface : String) (s : State)
    → iface ≢ ""
    → UsbInv s
    → UsbInv (address_added k msg iface s)
unfolding address_added
address_added-UsbInv k msg iface s n v = ground (arith, eq_iff s.usb_interface_name iface)

keeps_UsbInv : Keeps UsbInv
unfolding usb_at_start other_at_start set_address
keeps_UsbInv = record {
  removed = link_removed-UsbInv;
  present = link_present-UsbInv;
  added = address_added-UsbInv;
  fetched_resume = λ s v. ground arith;
  fetched_startup = λ s v. ground arith;
  routed = λ gateway s v. ground arith;
  usb_found = λ link s v. ground arith;
  other_found = λ fs link s v. ground arith;
  addressed = λ ip s v. ground arith;
}

-- Whatever the kernel reports, and in whatever order, the watcher keeps the USB fields
-- consistent, if they were at its start: tethering is available or connected only on a detected
-- interface, and while none is detected there is no name and no index.
pub run-UsbInv :
    (k : Kernel) (rounds : List Round) (watcher : Watcher) (w : World)
    → UsbInv (state_of w)
    → UsbInv (state_of (run k rounds watcher w).1)
run-UsbInv k rounds watcher w v = run_keeps UsbInv keeps_UsbInv k rounds watcher w v
