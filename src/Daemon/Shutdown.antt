-- ===== src/Daemon/Shutdown.antt =====
-- cmd/x-network/main.go: the end of the daemon, from any state that it can be in.
use x_network.Base.{◌≡◌, ◌⊎◌, All, false, List, [], ◌∷◌, ◌++◌, Option, none, some}
use x_network.Base.Outcome.{ok}
use x_network.Runtime.{Effect, close, iwd_bus, service_bus, netlink_socket, rtnetlink_socket, World}
use x_network.Iwd.Client.{Client}
use x_network.Netlink.Kernel.{Kernel}
use x_network.Netlink.Link.{Watcher}
use x_network.Traffic.{Monitor}
use x_network.Daemon.{shut_down}
use x_network.Daemon.Unclosed.{IsNotClose}
use x_network.Daemon.System.{System}

-- Nothing has closed the two stop channels yet.
abbrev IsRunning : Option Watcher → Monitor → Type 0
IsRunning none m = m.stop_closed ≡ false
IsRunning (some watcher) m = (watcher.stop_closed ≡ false) × (m.stop_closed ≡ false)

-- What is closed, newest first: the service's bus, the sockets of the watcher, the bus of iwd.
abbrev closes_client : Option Client → List Effect
closes_client none = []
closes_client (some c) = close iwd_bus ∷ []

abbrev closes_watcher : Option Watcher → List Effect
closes_watcher none = []
closes_watcher (some watcher) = close rtnetlink_socket ∷ close netlink_socket ∷ []

abbrev pub closings : Option Client → Option Watcher → List Effect
closings c watcher = closes_client c ++ closes_watcher watcher ++ close service_bus ∷ []

-- How the deferred calls end.
abbrev pub Ends : Option Client → Option Watcher → Monitor → World → Type 0
Ends c watcher m w =
    (m' : Monitor) × (w' : World) × (shut_down c watcher m w ≡ ok (m', w'))
    × (m'.running ≡ false)
    × (w'.effects ≡ closings c watcher ++ w.effects)
    × (w'.manager ≡ w.manager)

-- None of what is closed at the end was closed before.
abbrev pub IsFirstTime : Option Watcher → List Effect → Type 0
IsFirstTime watcher es =
    All (IsNotClose iwd_bus) es
    × All (IsNotClose service_bus) es
    × All (IsNotClose rtnetlink_socket) es
    × ((watcher ≡ none) ⊎ All (IsNotClose netlink_socket) es)
