-- ===== src/Iwd/Steps.antt =====
-- internal/iwd/client.go: the client of iwd as a step relation. Each step is a part of a goroutine
-- with at most one Update, or a handler that runs through with nothing between its Updates; what
-- was fetched for an Update at an earlier moment is any such thing.
use mathlib.Core.Path.{subst}
use x_network.State.Coherent.{IsCoherent}
use x_network.Base.{ℕ, ◌≡◌, sym, true, String, List, Option, some, arith}
use x_network.Base.Outcome.{ok}
use x_network.Variant.{Props}
use x_network.State.{State, Network}
use x_network.Runtime.{go, initial_networks, act, World, state_of, modify, modify_or_panic}
use x_network.Portal.{Web, check_captive_portal}
use x_network.Iwd.Agent.{Agent, new_agent, request_passphrase, cancel, release}
use x_network.Iwd.Bus.{Bus, Signal}
use x_network.Iwd.Client.{Client, update_device_props, update_station_state}
use x_network.Iwd.Client.Setup.{
  modify_state, store_saved, subscribe_signals, register_with_iwd, detached, gone, handle_lifecycle,
}
use x_network.Iwd.Client.Setup.Coherent.{
  device_update-IsCoherent, station_update-IsCoherent, store_saved-IsCoherent,
  subscribe_signals-manager, register_with_iwd-manager,
}
use x_network.Iwd.Client.Setup.Lifecycle.{handle_lifecycle-IsCoherent}
use x_network.Iwd.Networks.{fetch_networks, store_networks}
use x_network.Iwd.Networks.Coherent.{fetch_networks-AreShown, store_networks-IsCoherent}
use x_network.Iwd.Known.{refresh_known_networks}
use x_network.Iwd.Station.{
  station_change, handle_property_change, after_connected_first, store_portal,
}
use x_network.Iwd.Station.Coherent.{
  modify_station-IsCoherent, handle_property_change-IsCoherent, refresh_known_networks-IsCoherent,
  after_connected_first-IsCoherent, store_portal-IsCoherent,
}
use x_network.Iwd.Connect.{Request, begin_connect, calling, prepare_connect, finish_connect}
use x_network.Iwd.Connect.Coherent.{prepare_connect-IsCoherent, finish_connect-IsCoherent}
use x_network.Iwd.Control.{fallen_back}

-- What a call of iwd makes of the agent.
pub data AgentStep (a : Agent) : Agent → Type 0 where
  asked : (now : ℕ) (network : String) → AgentStep a (request_passphrase now network a).0
  canceled : (reason : String) → AgentStep a (cancel reason a)
  released : AgentStep a (release a)

pub data IwdStep (c : Client) (w : World) : Client → World → Type 0 where
  -- The loop of the property signals: the whole handler, or its Update alone, with the storing
  -- of networks later.
  property_changes :
      (during behind : Bus) (sig : Signal) (w' : World)
      → handle_property_change during behind c.station_path sig w ≡ ok w'
      → IwdStep c w c w'
  station_changes :
      (bus : Bus) (props : Props) (w' : World)
      → modify_or_panic (station_change bus c.station_path props) w ≡ ok w'
      → IwdStep c w c w'
  networks_come :
      (bus : Bus) (station : String) (earlier : State) (nets : Option (List Network))
      → fetch_networks bus station earlier ≡ ok nets
      → IwdStep c w c (store_networks nets w)
  known_networks_come :
      (bus : Bus) (w' : World) → refresh_known_networks bus w ≡ ok w' → IwdStep c w c w'
  -- A new connection: both refreshes, and the result of the portal check.
  connection_settles :
      (bus : Bus) (w' : World)
      → after_connected_first bus c.station_path w ≡ ok w'
      → IwdStep c w c w'
  portal_is_checked :
      (web : Web) (ssid : String)
      → IwdStep c w c (modify (store_portal ssid (check_captive_portal web)) w)
  falls_back : IwdStep c w c (modify fallen_back w)
  -- iwd comes or goes, and nothing comes between.
  lives :
      (bus : Bus) (sig : Signal) (r : Client × World)
      → handle_lifecycle bus sig c w ≡ ok r
      → IwdStep c w r.0 r.1
  -- Both goroutines that can initialize the client, the main one and the loop of iwd's coming and
  -- going, do so with no lock. These are the pieces of `findDevice`, of the rest of `maybeInitIWD`
  -- and of `handleIWDDisappear`, which can come between one another in any order.
  finds_station : (path : String) → IwdStep c w (record c { station_path = path }) w
  finds_device : (path : String) → IwdStep c w (record c { device_path = path }) w
  reads_device :
      (ps : Props) (w' : World) → modify_state (update_device_props ps) w ≡ ok w' → IwdStep c w c w'
  reads_station :
      (bus : Bus) (path : String) (ps : Props) (w' : World)
      → modify_state (update_station_state bus path ps) w ≡ ok w'
      → IwdStep c w c w'
  keeps_saved : (names : List String) → IwdStep c w c (store_saved names w)
  subscribes : (bus : Bus) → IwdStep c w c (subscribe_signals bus w)
  gets_agent : IwdStep c w (record c { agent = some new_agent }) w
  registers_agent : (bus : Bus) → IwdStep c w c (register_with_iwd bus w)
  is_initialized : IwdStep c w (record c { initialized = true }) (act (go initial_networks) w)
  detaches : IwdStep c w (detached c) w
  marks_gone : IwdStep c w c (modify gone w)
  -- The three parts of an attempt to connect.
  begins : IwdStep c w (begin_connect c).0 w
  prepares :
      (now : ℕ) (req : Request) (nets : Option (List Network)) (path : String) (c' : Client)
      (w' : World)
      → prepare_connect now req nets c w ≡ calling path c' w'
      → IwdStep c w c' w'
  finishes :
      (path : String) (id : ℕ) (err : Option String)
      → IwdStep c w (finish_connect path id err c w).0 (finish_connect path id err c w).1
  -- iwd calls the agent.
  calls_agent :
      (a a' : Agent)
      → c.agent ≡ some a
      → AgentStep a a'
      → IwdStep c w (record c { agent = some a' }) w

pub IwdStep-IsCoherent :
    (c : Client) (w : World) (c' : Client) (w' : World)
    → IwdStep c w c' w'
    → IsCoherent (state_of w)
    → IsCoherent (state_of w')
unfolding fallen_back modify
IwdStep-IsCoherent c w c' w' (property_changes during behind sig _ e) v =
    handle_property_change-IsCoherent during behind c.station_path sig w w' e v
IwdStep-IsCoherent c w c' w' (station_changes bus props _ e) v =
    modify_station-IsCoherent bus c.station_path props w w' e v
IwdStep-IsCoherent c w c' w' (networks_come bus station earlier nets e) v =
    store_networks-IsCoherent nets w (fetch_networks-AreShown bus station earlier nets e) v
IwdStep-IsCoherent c w c' w' (known_networks_come bus _ e) v =
    refresh_known_networks-IsCoherent bus w w' e v
IwdStep-IsCoherent c w c' w' (connection_settles bus _ e) v =
    after_connected_first-IsCoherent bus c.station_path w w' e v
IwdStep-IsCoherent c w c' w' (portal_is_checked web ssid) v =
    store_portal-IsCoherent web ssid (state_of w) v
IwdStep-IsCoherent c w c' w' falls_back v = ground arith
IwdStep-IsCoherent c w c' w' (lives bus sig r e) v = handle_lifecycle-IsCoherent bus sig c w r e v
IwdStep-IsCoherent c w c' w' (finds_station path) v = v
IwdStep-IsCoherent c w c' w' (finds_device path) v = v
IwdStep-IsCoherent c w c' w' (reads_device ps _ e) v = device_update-IsCoherent ps w w' e v
IwdStep-IsCoherent c w c' w' (reads_station bus path ps _ e) v =
    station_update-IsCoherent bus path ps w w' e v
IwdStep-IsCoherent c w c' w' (keeps_saved names) v = store_saved-IsCoherent names w v
IwdStep-IsCoherent c w c' w' (subscribes bus) v =
    subst (λ m. IsCoherent m.state) (sym (subscribe_signals-manager bus w)) v
IwdStep-IsCoherent c w c' w' gets_agent v = v
IwdStep-IsCoherent c w c' w' (registers_agent bus) v =
    subst (λ m. IsCoherent m.state) (sym (register_with_iwd-manager bus w)) v
IwdStep-IsCoherent c w c' w' is_initialized v = v
IwdStep-IsCoherent c w c' w' detaches v = v
IwdStep-IsCoherent c w c' w' marks_gone v = ground arith
IwdStep-IsCoherent c w c' w' begins v = v
IwdStep-IsCoherent c w c' w' (prepares now req nets path _ _ e) v =
    prepare_connect-IsCoherent now req nets path c c' w w' e v
IwdStep-IsCoherent c w c' w' (finishes path id err) v = finish_connect-IsCoherent path id err c w v
IwdStep-IsCoherent c w c' w' (calls_agent a0 a1 e step) v = v
