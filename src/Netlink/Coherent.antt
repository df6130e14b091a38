-- ===== src/Netlink/Coherent.antt =====
-- internal/netlink/watcher.go: the watcher keeps the shared state coherent.
use x_network.Base.{arith}
use x_network.State.Coherent.{IsCoherent}
use x_network.Netlink.Link.{link_removed, link_present}
use x_network.Netlink.Address.{address_added}
use x_network.Netlink.Fetch.{usb_at_start, other_at_start, set_address}
use x_network.Netlink.Kept.{Keeps}

pub keeps_IsCoherent : Keeps IsCoherent
unfolding link_removed link_present address_added usb_at_start other_at_start set_address
keeps_IsCoherent = record {
  removed = λ index s v. ground arith;
  present = λ fs link s v. ground arith;
  added = λ k msg iface s n v. ground arith;
  fetched_resume = λ s v. ground arith;
  fetched_startup = λ s v. ground arith;
  routed = λ gateway s v. ground arith;
  usb_found = λ link s v. ground arith;
  other_found = λ fs link s v. ground arith;
  addressed = λ ip s v. ground arith;
}
