-- ===== src/Netlink/Steps.antt =====
-- internal/netlink/watcher.go: each Update of the watcher by itself, so that others can come between
-- the Updates of one message or of a fetch.
use x_network.Base.{ℕ, ◌≢◌, String, true, false, Option}
use x_network.State.Coherent.{IsCoherent}
use x_network.Runtime.{fetch_weather, go, World, state_of, act, modify, modify_with}
use x_network.Runtime.Stable.{Stable, go-Stable, modify-Stable}
use x_network.Sysfs.{Sysfs}
use x_network.Netlink.Kernel.{Link, Address, Ip, Kernel}
use x_network.Netlink.Link.{link_removed, link_present}
use x_network.Netlink.Address.{address_added}
use x_network.Netlink.Fetch.{usb_at_start, other_at_start, set_address}
use x_network.Netlink.Coherent.{keeps_IsCoherent}
use x_network.Netlink.Stable.{modify_present, modify_at_start}

pub data WatcherStep (w : World) : World → Type 0 where
  link_goes : (index : ℕ) → WatcherStep w (modify (link_removed index) w)
  link_comes : (fs : Sysfs) (link : Link) → WatcherStep w (modify_with (link_present fs link) w)
  address_comes :
      (k : Kernel) (msg : Address) (iface : String)
      → iface ≢ ""
      → WatcherStep w (modify (address_added k msg iface) w)
  -- A weather fetch is started before the Update of its branch.
  starts_fetch : (reason : String) → WatcherStep w (act (go (fetch_weather reason)) w)
  notes_resume :
      WatcherStep w (modify (λ st. record st { was_resumed = false; weather_triggered = true }) w)
  notes_startup :
      WatcherStep w (modify (λ st. record st { is_startup = false; weather_triggered = true }) w)
  gateway_comes :
      (gateway : String) → WatcherStep w (modify (λ st. record st { gateway = gateway }) w)
  finds_usb : (link : Link) → WatcherStep w (modify_with (usb_at_start link) w)
  finds_other : (fs : Sysfs) (link : Link) → WatcherStep w (modify (other_at_start fs link) w)
  finds_address : (ip : Option Ip) → WatcherStep w (modify (set_address ip) w)

pub WatcherStep-IsCoherent :
    (w w' : World) → WatcherStep w w' → IsCoherent (state_of w) → IsCoherent (state_of w')
unfolding modify modify_with
WatcherStep-IsCoherent w w' (link_goes index) v = keeps_IsCoherent.removed index (state_of w) v
WatcherStep-IsCoherent w w' (link_comes fs link) v = keeps_IsCoherent.present fs link (state_of w) v
WatcherStep-IsCoherent w w' (address_comes k msg iface named) v =
    keeps_IsCoherent.added k msg iface (state_of w) named v
WatcherStep-IsCoherent w w' (starts_fetch reason) v = v
WatcherStep-IsCoherent w w' notes_resume v = keeps_IsCoherent.fetched_resume (state_of w) v
WatcherStep-IsCoherent w w' notes_startup v = keeps_IsCoherent.fetched_startup (state_of w) v
WatcherStep-IsCoherent w w' (gateway_comes gateway) v =
    keeps_IsCoherent.routed gateway (state_of w) v
WatcherStep-IsCoherent w w' (finds_usb link) v = keeps_IsCoherent.usb_found link (state_of w) v
WatcherStep-IsCoherent w w' (finds_other fs link) v =
    keeps_IsCoherent.other_found fs link (state_of w) v
WatcherStep-IsCoherent w w' (finds_address ip) v = keeps_IsCoherent.addressed ip (state_of w) v

module _ (P : World → Type 0) (stable : Stable P) where
  pub WatcherStep-Stable : (w w' : World) → WatcherStep w w' → P w → P w'
  WatcherStep-Stable w w' (link_goes index) v = modify-Stable P stable _ w v
  WatcherStep-Stable w w' (link_comes fs link) v = modify_present P stable fs link w v
  WatcherStep-Stable w w' (address_comes k msg iface named) v = modify-Stable P stable _ w v
  WatcherStep-Stable w w' (starts_fetch reason) v = go-Stable P stable _ w v
  WatcherStep-Stable w w' notes_resume v = modify-Stable P stable _ w v
  WatcherStep-Stable w w' notes_startup v = modify-Stable P stable _ w v
  WatcherStep-Stable w w' (gateway_comes gateway) v = modify-Stable P stable _ w v
  WatcherStep-Stable w w' (finds_usb link) v = modify_at_start P stable link w v
  WatcherStep-Stable w w' (finds_other fs link) v = modify-Stable P stable _ w v
  WatcherStep-Stable w w' (finds_address ip) v = modify-Stable P stable _ w v
