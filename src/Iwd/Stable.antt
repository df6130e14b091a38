-- ===== src/Iwd/Stable.antt =====
-- internal/iwd/client.go: what every Update keeps is kept by all steps of the client of iwd.
use x_network.Base.{ℕ, ◌≡◌, String, List, Option, inl, inr, Bool-cases, ◌==◌, arith}
use x_network.State.{Network}
use x_network.Runtime.{World}
use x_network.Runtime.Stable.{Stable, call-Stable, go-Stable, modify-Stable}
use x_network.Iwd.Client.{Client, update_device_props, update_station_state}
use x_network.Iwd.Client.Setup.Stable.{
  modify_state-Stable, store_saved-Stable, subscribe_signals-Stable, register_with_iwd-Stable,
  handle_lifecycle-Stable,
}
use x_network.Iwd.Station.Stable.{
  store_networks-Stable, modify_station-Stable, handle_property_change-Stable,
  refresh_known_networks-Stable, after_connected_first-Stable,
}
use x_network.Iwd.Connect.{
  Request, calling, prepare_connect, finish_connect, world_calling, connect_call, network_with,
  nets_of,
}
use x_network.Iwd.Steps.{
  IwdStep, property_changes, station_changes, networks_come, known_networks_come,
  connection_settles, portal_is_checked, falls_back, lives, finds_station, finds_device,
  reads_device, reads_station, keeps_saved, subscribes, gets_agent, registers_agent, is_initialized,
  detaches, marks_gone, begins, prepares, finishes, calls_agent,
}

module _ (P : World → Type 0) (stable : Stable P) where
  connect_call-Stable :
      (req : Request) (path : String) (c : Client) (w : World) → P w → P (connect_call req path c w)
  connect_call-Stable req path c w v = elim (Bool-cases req.hidden) [
    | inl e ↦ rw e (call-Stable P stable _ _ _ w v)
    | inr n ↦ rw n (call-Stable P stable _ _ _ w v)
  ]

  prepare_connect-Stable :
      (now : ℕ) (req : Request) (nets : Option (List Network)) (path : String) (c c' : Client)
      (w w' : World)
      → prepare_connect now req nets c w ≡ calling path c' w'
      → P w
      → P w'
  unfolding prepare_connect
  prepare_connect-Stable now req nets path c c' w w' e v =
      let at = (network_with req.ssid (nets_of nets)).0 in
      let sent : P (world_calling req at c w) =
        connect_call-Stable req at c _ (modify-Stable P stable _ w v) in
      ground arith

  finish_connect-Stable :
      (path : String) (id : ℕ) (err : Option String) (c : Client) (w : World)
      → P w
      → P (finish_connect path id err c w).1
  unfolding finish_connect
  finish_connect-Stable path id err c w v = elim (Bool-cases (c.connect_id == id)) [
    | inl e ↦ rw e (modify-Stable P stable _ w v)
    | inr n ↦ rw n v
  ]

  pub IwdStep-Stable :
      (c : Client) (w : World) (c' : Client) (w' : World) → IwdStep c w c' w' → P w → P w'
  IwdStep-Stable c w c' w' (property_changes during behind sig _ e) v =
      handle_property_change-Stable P stable during behind c.station_path sig w w' e v
  IwdStep-Stable c w c' w' (station_changes bus props _ e) v =
      modify_station-Stable P stable bus c.station_path props w w' e v
  IwdStep-Stable c w c' w' (networks_come bus station earlier nets e) v =
      store_networks-Stable P stable nets w v
  IwdStep-Stable c w c' w' (known_networks_come bus _ e) v =
      refresh_known_networks-Stable P stable bus w w' e v
  IwdStep-Stable c w c' w' (connection_settles bus _ e) v =
      after_connected_first-Stable P stable bus c.station_path w w' e v
  IwdStep-Stable c w c' w' (portal_is_checked web ssid) v = modify-Stable P stable _ w v
  IwdStep-Stable c w c' w' falls_back v = modify-Stable P stable _ w v
  IwdStep-Stable c w c' w' (lives bus sig r e) v =
      handle_lifecycle-Stable P stable bus sig c w r e v
  IwdStep-Stable c w c' w' (finds_station path) v = v
  IwdStep-Stable c w c' w' (finds_device path) v = v
  IwdStep-Stable c w c' w' (reads_device ps _ e) v =
      modify_state-Stable P stable (update_device_props ps) w w' e v
  IwdStep-Stable c w c' w' (reads_station bus path ps _ e) v =
      modify_state-Stable P stable (update_station_state bus path ps) w w' e v
  IwdStep-Stable c w c' w' (keeps_saved names) v = store_saved-Stable P stable names w v
  IwdStep-Stable c w c' w' (subscribes bus) v = subscribe_signals-Stable P stable bus w v
  IwdStep-Stable c w c' w' gets_agent v = v
  IwdStep-Stable c w c' w' (registers_agent bus) v = register_with_iwd-Stable P stable bus w v
  IwdStep-Stable c w c' w' is_initialized v = go-Stable P stable _ w v
  IwdStep-Stable c w c' w' detaches v = v
  IwdStep-Stable c w c' w' marks_gone v = modify-Stable P stable _ w v
  IwdStep-Stable c w c' w' begins v = v
  IwdStep-Stable c w c' w' (prepares now req nets path _ _ e) v =
      prepare_connect-Stable now req nets path c c' w w' e v
  IwdStep-Stable c w c' w' (finishes path id err) v = finish_connect-Stable path id err c w v
  IwdStep-Stable c w c' w' (calls_agent a a' e step) v = v
