-- ===== src/Iwd/Connect/Coherent.antt =====
-- internal/iwd/client.go: an attempt of `Connect` keeps the shared state coherent.
use x_network.Base.{ℕ, ◌≡◌, String, Option, List, arith}
use x_network.State.{Network}
use x_network.Runtime.{World, state_of, modify}
use x_network.State.Coherent.{IsCoherent}
use x_network.Iwd.Client.{Client}
use x_network.Iwd.Connect.{
  Request, calling, prepare_connect, finish_connect, world_calling, network_with, nets_of,
}

world_calling-IsCoherent :
    (req : Request) (path : String) (c : Client) (w : World)
    → IsCoherent (state_of w)
    → IsCoherent (state_of (world_calling req path c w))
unfolding modify
world_calling-IsCoherent req path c w v = ground arith

pub prepare_connect-IsCoherent :
    (now : ℕ) (req : Request) (nets : Option (List Network)) (path : String) (c c' : Client)
    (w w' : World)
    → prepare_connect now req nets c w ≡ calling path c' w'
    → IsCoherent (state_of w)
    → IsCoherent (state_of w')
unfolding prepare_connect
prepare_connect-IsCoherent now req nets path c c' w w' e v =
    let (at, security) = network_with req.ssid (nets_of nets) in
    let v' = world_calling-IsCoherent req at c w v in ground arith

pub finish_connect-IsCoherent :
    (path : String) (id : ℕ) (err : Option String) (c : Client) (w : World)
    → IsCoherent (state_of w)
    → IsCoherent (state_of (finish_connect path id err c w).1)
unfolding finish_connect modify
finish_connect-IsCoherent path id err c w v = ground arith
