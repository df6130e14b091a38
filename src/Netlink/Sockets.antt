-- ===== src/Netlink/Sockets.antt =====
-- internal/netlink/watcher.go: `NewWatcher` and `Close`.
use x_network.Base.{String, true, false, Option, none, some, ◌<>◌}
use x_network.Base.Outcome.{Outcome, ok, panic}
use x_network.Runtime.{close, netlink_socket, rtnetlink_socket, World, act}
use x_network.Netlink.Link.{Watcher, new_watcher}

pub data Opened : Type 0 where
  opened : Watcher → Opened
  not_opened : (error : String) → Opened

-- The errors of the two sockets; the first is closed again if there is no second.
unfoldable pub open_watcher : (dial rt_dial : Option String) → World → World × Opened
open_watcher (some e) rt_dial w = (w, not_opened ("failed to dial netlink: " <> e))
open_watcher none (some e) w =
    (act (close netlink_socket) w, not_opened ("failed to dial rtnetlink: " <> e))
open_watcher none none w = (w, opened new_watcher)

-- Closing the stop channel a second time panics.
unfoldable pub close_watcher : Watcher → World → Outcome (Watcher × World)
close_watcher watcher w = elim watcher.stop_closed [
  | true ↦ panic
  | false ↦ ok (
    record watcher { stop_closed = true },
    act (close rtnetlink_socket) (act (close netlink_socket) w),
  )
]
