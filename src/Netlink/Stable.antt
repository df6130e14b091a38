-- ===== src/Netlink/Stable.antt =====
-- internal/netlink/watcher.go: what every Update keeps is kept by the watcher.
use x_network.Base.{
  ℕ, String, Bool, true, false, List, [], ◌∷◌, Option, arith, ◌=s=◌, ◌==◌, ◌||◌, All, Bool-cases,
  inl, inr,
}
use x_network.State.{State}
use x_network.Runtime.{World, state_of, modify, modify_with}
use x_network.Runtime.Stable.{Stable, IsOutside, go-Stable, modify-Stable}
use x_network.Sysfs.{Sysfs}
use x_network.Netlink.Kernel.{
  Link, Address, Kernel, Ip, rtm_newlink, rtm_dellink, rtm_newaddr, rtm_deladdr, Message,
}
use x_network.Netlink.Link.{Watcher, link_present, handle_link_message}
use x_network.Netlink.Address.{
  address_added, trigger_weather, fetch_gateway, address_event, handle_address_message,
}
use x_network.Netlink.Fetch.{
  usb_at_start, fetch_interface, fetch_each, fetch_interfaces, match_link, match_addresses,
  fetch_addresses,
}
use x_network.Netlink.Watch.{handle_raw_message}

link_present-IsOutside :
    (fs : Sysfs) (link : Link) (s : State) → All IsOutside (link_present fs link s).1
unfolding link_present
link_present-IsOutside fs link s = ground arith

usb_at_start-IsOutside : (link : Link) (s : State) → All IsOutside (usb_at_start link s).1
unfolding usb_at_start
usb_at_start-IsOutside link s = ground arith

module _ (P : World → Type 0) (stable : Stable P) where
  pub modify_present :
      (fs : Sysfs) (link : Link) (w : World) → P w → P (modify_with (link_present fs link) w)
  modify_present fs link w v =
      stable.updates (link_present fs link) w (link_present-IsOutside fs link (state_of w)) v

  pub modify_at_start : (link : Link) (w : World) → P w → P (modify_with (usb_at_start link) w)
  modify_at_start link w v =
      stable.updates (usb_at_start link) w (usb_at_start-IsOutside link (state_of w)) v

  handle_link_message-Stable :
      (k : Kernel) (payload : List ℕ) (gone : Bool) (watcher : Watcher) (w : World)
      → P w
      → P (handle_link_message k payload gone watcher w).1
  unfolding handle_link_message
  handle_link_message-Stable k payload gone watcher w v =
      grind (arith, modify_present, modify-Stable P stable)

  trigger_weather-Stable :
      (now : ℕ) (ip : Option Ip) (w : World) → P w → P (trigger_weather now ip w)
  unfolding trigger_weather
  trigger_weather-Stable now ip w v = grind (arith, go-Stable P stable, modify-Stable P stable)

  fetch_gateway-Stable : (k : Kernel) (w : World) → P w → P (fetch_gateway k w)
  unfolding fetch_gateway
  fetch_gateway-Stable k w v = grind (arith, modify-Stable P stable)

  address_event-Stable :
      (now : ℕ) (k : Kernel) (msg : Address) (iface : String) (w : World)
      → P w
      → P (address_event now k msg iface w)
  unfolding address_event
  address_event-Stable now k msg iface w v =
      let all = fetch_gateway-Stable k _ (
        trigger_weather-Stable now msg.address (modify (address_added k msg iface) w)
          (modify-Stable P stable (address_added k msg iface) w v)) in
      elim (Bool-cases (iface =s= "" || iface =s= "lo")) [ inl e ↦ rw e v | inr n ↦ rw n all ]

  handle_address_message-Stable :
      (now : ℕ) (k : Kernel) (payload : List ℕ) (gone : Bool) (w : World)
      → P w
      → P (handle_address_message now k payload gone w)
  unfolding handle_address_message
  handle_address_message-Stable now k payload gone w v = grind (arith, address_event-Stable)

  pub handle_raw_message-Stable :
      (now : ℕ) (k : Kernel) (msg : Message) (watcher : Watcher) (w : World)
      → P w
      → P (handle_raw_message now k msg watcher w).1
  unfolding handle_raw_message
  handle_raw_message-Stable now k msg watcher w v =
      let link = λ (gone : Bool). handle_link_message-Stable k msg.payload gone watcher w v in
      let addr = λ (gone : Bool). handle_address_message-Stable now k msg.payload gone w v in
      elim (Bool-cases (msg.kind == rtm_newlink)) [
        | inl e ↦ rw e (link false)
        | inr n ↦ elim (Bool-cases (msg.kind == rtm_dellink)) [
          | inl e ↦ rw (n, e) (link true)
          | inr m ↦ elim (Bool-cases (msg.kind == rtm_newaddr)) [
            | inl e ↦ rw (n, m, e) (addr false)
            | inr l ↦ elim (Bool-cases (msg.kind == rtm_deladdr)) [
              | inl e ↦ rw (n, m, l, e) (addr true)
              | inr k ↦ rw (n, m, l, k) v
            ]
          ]
        ]
      ]

  fetch_interface-Stable :
      (fs : Sysfs) (link : Link) (w : World) → P w → P (fetch_interface fs link w)
  unfolding fetch_interface
  fetch_interface-Stable fs link w v = grind (arith, modify_at_start, modify-Stable P stable)

  fetch_each-Stable : (fs : Sysfs) (links : List Link) (w : World) → P w → P (fetch_each fs links w)
  unfolding fetch_each
  fetch_each-Stable fs [] w v = v
  fetch_each-Stable fs (link ∷ links) w v =
      fetch_each-Stable fs links _ (fetch_interface-Stable fs link w v)

  pub fetch_interfaces-Stable : (k : Kernel) (w : World) → P w → P (fetch_interfaces k w)
  unfolding fetch_interfaces
  fetch_interfaces-Stable k w v = grind (arith, fetch_each-Stable)

  match_link-Stable :
      (iface : String) (addr : Address) (links : List Link) (w : World)
      → P w
      → P (match_link iface addr links w)
  unfolding match_link
  match_link-Stable iface addr [] w v = v
  match_link-Stable iface addr (link ∷ links) w v =
      grind (arith, match_link-Stable iface addr links w v, modify-Stable P stable)

  match_addresses-Stable :
      (iface : String) (links : List Link) (addrs : List Address) (w : World)
      → P w
      → P (match_addresses iface links addrs w)
  unfolding match_addresses
  match_addresses-Stable iface links [] w v = v
  match_addresses-Stable iface links (addr ∷ addrs) w v =
      match_addresses-Stable iface links addrs _ (match_link-Stable iface addr links w v)

  pub fetch_addresses-Stable : (k : Kernel) (w : World) → P w → P (fetch_addresses k w)
  unfolding fetch_addresses
  fetch_addresses-Stable k w v = grind (arith, match_addresses-Stable)
