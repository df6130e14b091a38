-- ===== src/Iwd/Connect.antt =====
-- internal/iwd/client.go: `Connect`, cut where it gives up the lock or waits for iwd, so that
-- attempts can run beside one another.
pub mod Attempts
pub mod Password
pub mod Newest
pub mod Coherent
pub mod Examples
use x_network.Base.{
  ℕ, ◌+◌, ◌%◌, String, Bool, true, false, not, ◌&&◌, ◌||◌, List, [], ◌∷◌, Option, none, some, ◌==◌,
  ◌=s=◌, ◌<>◌, if◌then◌else◌,
}
use x_network.Variant.{Variant, string}
use x_network.State.{State, Network}
use x_network.Runtime.{call, World, act, modify}
use x_network.Sysfs.{uint64_mod}
use x_network.Iwd.Agent.{Agent, set_pending, clear_pending}
use x_network.Iwd.Client.{Client}
use x_network.Iwd.Scan.{ScanResult}

pub record Request : Type 0 where
  pub ssid : String
  pub password : String
  pub security : String
  pub hidden : Bool

-- `ConnectSaved`
abbrev pub saved_request : String → Request
saved_request ssid = record { ssid = ssid; password = ""; security = ""; hidden = false }

-- The first locked part: a new id, which the attempt keeps.
unfoldable pub begin_connect : Client → Client × ℕ
begin_connect c = let id = (c.connect_id + 1) % uint64_mod in (record c { connect_id = id }, id)

-- The loop over the scanned networks: path and security of the first with the SSID, or two
-- empty texts.
unfoldable pub network_with : String → List Network → String × String
network_with ssid [] = ("", "")
network_with ssid (net ∷ nets) =
    if net.ssid =s= ssid then (net.object_path, net.security) else network_with ssid nets

abbrev pub nets_of : Option (List Network) → List Network
nets_of none = []
nets_of (some nets) = nets

abbrev pub wants_pending : Request → String → Bool
wants_pending req network_security =
    not (req.password =s= "")
    && (network_security =s= "psk"
        || req.security =s= "psk"
        || network_security =s= "wpa2"
        || network_security =s= "wpa3")

abbrev pub with_pending : ℕ → String → String → Option Agent → Option Agent
with_pending now path password none = none
with_pending now path password (some agent) = some (set_pending now path password agent)

-- What an attempt does between its scan and the call of iwd; `refused` is a return with an error.
pub data Prepared : Type 0 where
  refused : String → Prepared
  calling : (path : String) → Client → World → Prepared

abbrev pub connect_call : Request → String → Client → World → World
connect_call req path c w =
    if req.hidden
    then act
        (call c.station_path "net.connman.iwd.Station.ConnectHiddenNetwork" (string req.ssid ∷ []))
        w
    else act (call path "net.connman.iwd.Network.Connect" []) w

abbrev pub client_calling : ℕ → Request → String → String → Client → Client
client_calling now req path security c =
    if wants_pending req security
    then record c { agent = with_pending now path req.password c.agent }
    else c

abbrev pub world_calling : Request → String → Client → World → World
world_calling req path c w =
    connect_call req path c (modify (λ st. record st { connecting_ssid = req.ssid }) w)

unfoldable pub prepared : ℕ → Request → String × String → Client → World → Prepared
prepared now req (path, security) c w =
    if path =s= "" && not req.hidden
    then refused ("network not found: " <> req.ssid)
    else calling path (client_calling now req path security c) (world_calling req path c w)

unfoldable pub prepare_connect : ℕ → Request → Option (List Network) → Client → World → Prepared
unfolding prepared network_with
prepare_connect now req nets c w = prepared now req (network_with req.ssid (nets_of nets)) c w

-- Behind `Scan`, at a time: its error is returned.
unfoldable pub connect_scanned : ℕ → Request → ScanResult → Client → Prepared
unfolding prepare_connect
connect_scanned now req (w, nets, some e) c = refused e
connect_scanned now req (w, nets, none) c = prepare_connect now req nets c w

abbrev without_pending : String → Option Agent → Option Agent
without_pending path none = none
without_pending path (some agent) = some (clear_pending path agent)

-- After the call: under the lock, the current attempt clears the SSID; a failed one takes its
-- password back.
unfoldable pub finish_connect :
    (path : String) (id : ℕ) → Option String → Client → World → Client × World
finish_connect path id err c w = (
  elim err [ none ↦ c | some _ ↦ record c { agent = without_pending path c.agent } ],
  if c.connect_id == id then modify (λ st. record st { connecting_ssid = "" }) w else w,
)
