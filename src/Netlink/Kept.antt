-- ===== src/Netlink/Kept.antt =====
-- internal/netlink/watcher.go: a property of the shared state that the closures of the watcher's
-- Updates keep is kept by all that the watcher does.
use x_network.Base.{
  ℕ, ◌≢◌, String, Bool, true, false, List, [], ◌∷◌, Option, arith, ◌=s=◌, ◌==◌, Bool-cases, inl,
  inr, eq_iff,
}
use x_network.State.{State}
use x_network.Runtime.{World, state_of, modify, modify_with}
use x_network.Sysfs.{Sysfs}
use x_network.Netlink.Kernel.{
  Link, Address, Kernel, Ip, rtm_newlink, rtm_dellink, rtm_newaddr, rtm_deladdr, Message,
}
use x_network.Netlink.Link.{Watcher, link_removed, link_present, handle_link_message}
use x_network.Netlink.Address.{
  address_added, trigger_weather, fetch_gateway, address_event, handle_address_message,
}
use x_network.Netlink.Fetch.{
  usb_at_start, other_at_start, set_address, fetch_interface, fetch_each, fetch_interfaces,
  match_link, match_addresses, fetch_addresses,
}
use x_network.Netlink.Watch.{
  Arrival, Round, stopped, receive_error, received, handle_raw_message, handle_all, watch, run,
}

-- The closures keep the property. An address is added under the name of an interface.
pub record Keeps (P : State → Type 0) : Type 0 where
  pub removed : (index : ℕ) (s : State) → P s → P (link_removed index s)
  pub present : (fs : Sysfs) (link : Link) (s : State) → P s → P (link_present fs link s).0
  pub added :
      (k : Kernel) (msg : Address) (iface : String) (s : State)
      → iface ≢ ""
      → P s
      → P (address_added k msg iface s)
  pub fetched_resume :
      (s : State) → P s → P (record s { was_resumed = false; weather_triggered = true })
  pub fetched_startup :
      (s : State) → P s → P (record s { is_startup = false; weather_triggered = true })
  pub routed : (gateway : String) (s : State) → P s → P (record s { gateway = gateway })
  pub usb_found : (link : Link) (s : State) → P s → P (usb_at_start link s).0
  pub other_found : (fs : Sysfs) (link : Link) (s : State) → P s → P (other_at_start fs link s)
  pub addressed : (ip : Option Ip) (s : State) → P s → P (set_address ip s)

module _ (P : State → Type 0) (keeps : Keeps P) where
  handle_link_message_keeps :
      (k : Kernel) (payload : List ℕ) (gone : Bool) (watcher : Watcher) (w : World)
      → P (state_of w)
      → P (state_of (handle_link_message k payload gone watcher w).1)
  unfolding handle_link_message modify modify_with
  handle_link_message_keeps k payload gone watcher w v = grind (arith, keeps.removed, keeps.present)

  trigger_weather_keeps :
      (now : ℕ) (ip : Option Ip) (w : World)
      → P (state_of w)
      → P (state_of (trigger_weather now ip w))
  unfolding trigger_weather modify
  trigger_weather_keeps now ip w v = grind (arith, keeps.fetched_resume, keeps.fetched_startup)

  fetch_gateway_keeps : (k : Kernel) (w : World) → P (state_of w) → P (state_of (fetch_gateway k w))
  unfolding fetch_gateway modify
  fetch_gateway_keeps k w v = grind (arith, keeps.routed)

  address_event_keeps :
      (now : ℕ) (k : Kernel) (msg : Address) (iface : String) (w : World)
      → P (state_of w)
      → P (state_of (address_event now k msg iface w))
  unfolding address_event modify
  address_event_keeps now k msg iface w v = elim (Bool-cases (iface =s= "")) [
    | inl e ↦ rw e v
    | inr n ↦ elim (Bool-cases (iface =s= "lo")) [
      | inl e ↦ rw (n, e) v
      | inr m ↦
          rw (n, m)
            (fetch_gateway_keeps k _ (
              trigger_weather_keeps now msg.address (modify (address_added k msg iface) w)
                (keeps.added k msg iface _ (λ e. ground (arith, eq_iff iface "")) v)))
    ]
  ]

  handle_address_message_keeps :
      (now : ℕ) (k : Kernel) (payload : List ℕ) (gone : Bool) (w : World)
      → P (state_of w)
      → P (state_of (handle_address_message now k payload gone w))
  unfolding handle_address_message
  handle_address_message_keeps now k payload gone w v = grind (arith, address_event_keeps)

  pub handle_raw_message_keeps :
      (now : ℕ) (k : Kernel) (msg : Message) (watcher : Watcher) (w : World)
      → P (state_of w)
      → P (state_of (handle_raw_message now k msg watcher w).1)
  unfolding handle_raw_message
  handle_raw_message_keeps now k msg watcher w v =
      let link = λ (gone : Bool). handle_link_message_keeps k msg.payload gone watcher w v in
      let addr = λ (gone : Bool). handle_address_message_keeps now k msg.payload gone w v in
      elim (Bool-cases (msg.kind == rtm_newlink)) [
        | inl e ↦ rw e (link false)
        | inr n ↦ elim (Bool-cases (msg.kind == rtm_dellink)) [
          | inl e ↦ rw (n, e) (link true)
          | inr m ↦ elim (Bool-cases (msg.kind == rtm_newaddr)) [
            | inl e ↦ rw (n, m, e) (addr false)
            | inr l ↦ elim (Bool-cases (msg.kind == rtm_deladdr)) [
              | inl e ↦ rw (n, m, l, e) (addr true)
              | inr k ↦ rw (n, m, l, k) v
            ]
          ]
        ]
      ]

  handle_all_keeps :
      (msgs : List Arrival) (watcher : Watcher) (w : World)
      → P (state_of w)
      → P (state_of (handle_all msgs watcher w).1)
  unfolding handle_all
  handle_all_keeps [] watcher w v = v
  handle_all_keeps (a ∷ msgs) watcher w v =
      handle_all_keeps msgs _ _ (handle_raw_message_keeps a.now a.kernel a.message watcher w v)

  watch_keeps :
      (rounds : List Round) (watcher : Watcher) (w : World)
      → P (state_of w)
      → P (state_of (watch rounds watcher w).1)
  unfolding watch
  watch_keeps [] watcher w v = v
  watch_keeps (stopped ∷ rounds) watcher w v = v
  watch_keeps (receive_error ∷ rounds) watcher w v = watch_keeps rounds watcher w v
  watch_keeps (received msgs ∷ rounds) watcher w v =
      watch_keeps rounds _ _ (handle_all_keeps msgs watcher w v)

  fetch_interface_keeps :
      (fs : Sysfs) (link : Link) (w : World)
      → P (state_of w)
      → P (state_of (fetch_interface fs link w))
  unfolding fetch_interface modify modify_with
  fetch_interface_keeps fs link w v = grind (arith, keeps.usb_found, keeps.other_found)

  fetch_each_keeps :
      (fs : Sysfs) (links : List Link) (w : World)
      → P (state_of w)
      → P (state_of (fetch_each fs links w))
  unfolding fetch_each
  fetch_each_keeps fs [] w v = v
  fetch_each_keeps fs (link ∷ links) w v =
      fetch_each_keeps fs links _ (fetch_interface_keeps fs link w v)

  pub fetch_interfaces_keeps :
      (k : Kernel) (w : World) → P (state_of w) → P (state_of (fetch_interfaces k w))
  unfolding fetch_interfaces
  fetch_interfaces_keeps k w v = grind (arith, fetch_each_keeps)

  match_link_keeps :
      (iface : String) (addr : Address) (links : List Link) (w : World)
      → P (state_of w)
      → P (state_of (match_link iface addr links w))
  unfolding match_link modify
  match_link_keeps iface addr [] w v = v
  match_link_keeps iface addr (link ∷ links) w v =
      let later = match_link_keeps iface addr links w v in
      let put = keeps.addressed addr.address (state_of w) v in ground arith

  match_addresses_keeps :
      (iface : String) (links : List Link) (addrs : List Address) (w : World)
      → P (state_of w)
      → P (state_of (match_addresses iface links addrs w))
  unfolding match_addresses
  match_addresses_keeps iface links [] w v = v
  match_addresses_keeps iface links (addr ∷ addrs) w v =
      match_addresses_keeps iface links addrs _ (match_link_keeps iface addr links w v)

  pub fetch_addresses_keeps :
      (k : Kernel) (w : World) → P (state_of w) → P (state_of (fetch_addresses k w))
  unfolding fetch_addresses
  fetch_addresses_keeps k w v = grind (arith, match_addresses_keeps)

  pub run_keeps :
      (k : Kernel) (rounds : List Round) (watcher : Watcher) (w : World)
      → P (state_of w)
      → P (state_of (run k rounds watcher w).1)
  unfolding run
  run_keeps k rounds watcher w v =
      watch_keeps rounds watcher _ (fetch_addresses_keeps k _ (fetch_interfaces_keeps k w v))
