-- ===== src/Iwd/Client/Setup/Unused.antt =====
-- internal/iwd/agent.go and internal/iwd/client.go: functions of the setup that nothing calls.
use x_network.Base.{String, [], ◌∷◌, Option, none, some, lookup}
use x_network.Base.Outcome.{Outcome, ok, ◌>>=◌}
use x_network.Variant.{object_path, Props}
use x_network.Runtime.{call, World, act}
use x_network.Iwd.Agent.{agent_path}
use x_network.Iwd.Bus.{Bus, Interfaces, station_iface, device_iface}
use x_network.Iwd.Client.{Client, update_device_props, update_station_state}
use x_network.Iwd.Client.Setup.{modify_state}

-- `UnregisterFromIWD`, with its error.
unfoldable pub unregister_from_iwd : Bus → World → World × Option String
unregister_from_iwd bus w = (
  act
      (call "/net/connman/iwd" "net.connman.iwd.AgentManager.UnregisterAgent"
        (object_path agent_path ∷ []))
      w,
  bus.failure "/net/connman/iwd" "net.connman.iwd.AgentManager.UnregisterAgent",
)

props_if_there : Option Props → (Props → World → Outcome World) → World → Outcome World
props_if_there none use_them w = ok w
props_if_there (some props) use_them w = use_them props w

-- `updateDeviceState`: the device's properties first.
unfoldable pub update_device_state : Bus → Client → Interfaces → World → Outcome World
unfolding props_if_there
update_device_state bus c ifaces w =
    props_if_there (lookup device_iface ifaces) (λ ps. modify_state (update_device_props ps)) w
    >>= props_if_there (lookup station_iface ifaces)
        λ ps. modify_state (update_station_state bus c.station_path ps)
