-- ===== src/Daemon/Fallback.antt =====
-- internal/iwd/client.go beside internal/netlink/watcher.go: the USB fallback while the telephone is
-- unplugged.
use x_network.Base.{
  ℕ, ◌≡◌, ap, ◌∙◌, ◌≢◌, String, true, false, List, [], ◌∷◌, none, some, arith, eq_iff,
}
use x_network.State.{State}
use x_network.Runtime.{exec, World, Shell, state_of, act, modify}
use x_network.Netlink.Kernel.{Link, Kernel}
use x_network.Netlink.Link.{Watcher, handle_link_message, link_removed}
use x_network.Iwd.Control.{and_then, try_usb_fallback, fallen_back}
use x_network.Dbus.Methods.{service_error, request_usb_network}

abbrev pub up_command : String → List String
up_command iface = "sudo" ∷ "ip" ∷ "link" ∷ "set" ∷ iface ∷ "up" ∷ []

abbrev pub dhcp_command : String → List String
dhcp_command iface = "sudo" ∷ "dhcpcd" ∷ "-4" ∷ "-w" ∷ iface ∷ []

-- The state shows tethering over an interface that it does not show.
abbrev pub IsStale : State → Type 0
IsStale s = (s.usb_tethering_connected ≡ true) × (s.usb_interface_detected ≡ false)

removal-undetected :
    (k : Kernel) (payload : List ℕ) (watcher : Watcher) (w : World) (link : Link)
    → k.parse_link payload ≡ some link
    → link.name ≢ ""
    → link.name ≢ "lo"
    → link.index ≡ (state_of w).usb_interface_index
    → (state_of (handle_link_message k payload true watcher w).1).usb_interface_detected ≡ false
unfolding handle_link_message link_removed modify
removal-undetected k payload watcher w link parsed named outer tracked =
    ground (arith, eq_iff link.name "", eq_iff link.name "lo")

fallback-removal :
    (sh : Shell) (iface : String) (meanwhile : World → World) (w : World)
    → sh (up_command iface) ≡ none
    → sh (dhcp_command iface) ≡ none
    → state_of (try_usb_fallback sh iface meanwhile w)
      ≡ fallen_back (state_of (meanwhile (act (exec (up_command iface)) w)))
unfolding try_usb_fallback and_then modify
fallback-removal sh iface meanwhile w up dhcp = ground arith

refused_undetected :
    (w : World)
    → (state_of w).usb_interface_detected ≡ false
    → (request_usb_network w).1 ≡ service_error "No USB network interface detected"
unfolding request_usb_network
refused_undetected w gone = ground arith

-- If the telephone is unplugged while the fallback waits for an address, the end of the fallback
-- still reports tethering as connected, with no USB interface detected; and a client that then
-- asks for the USB network is told that there is none.
pub fallback-IsStale :
    (sh : Shell) (iface : String) (k : Kernel) (payload : List ℕ) (watcher : Watcher) (w : World)
    (link : Link)
    → sh (up_command iface) ≡ none
    → sh (dhcp_command iface) ≡ none
    → k.parse_link payload ≡ some link
    → link.name ≢ ""
    → link.name ≢ "lo"
    → link.index ≡ (state_of w).usb_interface_index
    → let unplugged = λ (v : World). (handle_link_message k payload true watcher v).1 in
      let w' = try_usb_fallback sh iface unplugged w in
      IsStale (state_of w')
      × ((request_usb_network w').1 ≡ service_error "No USB network interface detected")
unfolding fallen_back
fallback-IsStale sh iface k payload watcher w link up dhcp parsed named outer tracked =
    let unplugged = λ (v : World). (handle_link_message k payload true watcher v).1 in
    let ends = fallback-removal sh iface unplugged w up dhcp in
    let gone =
      removal-undetected k payload watcher (act (exec (up_command iface)) w) link parsed named outer
        tracked in
    let undetected = ap (λ s. s.usb_interface_detected) ends ∙ gone in
    (
      (ap (λ s. s.usb_tethering_connected) ends, undetected),
      refused_undetected (try_usb_fallback sh iface unplugged w) undetected,
    )
