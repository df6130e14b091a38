-- ===== src/Iwd/Connect/Examples.antt =====
-- internal/iwd: the theorems on passwords and on attempts to connect, at concrete inputs.
use x_network.Base.{
  ℕ, ◌≡◌, refl, inl, String, true, false, List, [], ◌∷◌, Option, none, some, All, arith,
}
use x_network.Base.Int.{negsuc}
use x_network.Variant.{returns}
use x_network.State.{Network}
use x_network.Runtime.{World}
use x_network.Fixtures.{world_of, on_wifi, on_trial, some_client}
use x_network.Iwd.Agent.{new_agent, canceled, request_passphrase}
use x_network.Iwd.Agent.History.{
  AgentCall, sets, clears, asks, agent_after, held, request_passphrase-held,
  request_passphrase_once,
}
use x_network.Iwd.Connect.{Request, begin_connect, prepare_connect, client_calling, world_calling}
use x_network.Iwd.Connect.Attempts.{
  Attempts, ConnectReach, IsFinished, connecting_ssid_of, connect_stuck, scanning, waiting, here,
  next, begins, prepares,
}
use x_network.Iwd.Connect.Newest.{IsNewestEnd, begun, finish_connect_newest}
use x_network.Iwd.Connect.Password.{answer_of, connect_password, connect_hidden}

abbrev two_calls : List (ℕ × AgentCall)
two_calls = (9, clears "/b") ∷ (5, sets "/a" "secret") ∷ []

request_passphrase-held_example :
    (request_passphrase 10 "/a" (agent_after two_calls)).1 ≡ returns "secret"
unfolding held
request_passphrase-held_example = request_passphrase-held 10 "/a" two_calls

request_passphrase_once_example :
    (request_passphrase 20 "/a"
      (agent_after ((16, sets "/" "other") ∷ (15, asks "/a") ∷ two_calls))).1
    ≡ canceled "No credential available"
request_passphrase_once_example =
    request_passphrase_once 20 15 "/a" two_calls ((16, sets "/" "other") ∷ []) ((λ e. cc), tt)

abbrev home_request : Request
home_request = record { ssid = "home"; password = "secret"; security = "psk"; hidden = false }

abbrev hidden_request : Request
hidden_request = record { ssid = "cave"; password = "secret"; security = "psk"; hidden = true }

abbrev work_request : Request
work_request = record { ssid = "work"; password = ""; security = "open"; hidden = false }

abbrev net_of : String → String → Network
net_of ssid path = record {
  ssid = ssid;
  security = "psk";
  signal_dbm = negsuc 59;
  signal = 80;
  connected = false;
  saved = false;
  frequency = 0;
  object_path = path;
}

abbrev scanned : Option (List Network)
scanned = some (net_of "home" "/home" ∷ net_of "work" "/work" ∷ [])

abbrev idle : World
idle = world_of on_wifi

connect_password_example :
    answer_of 12 "/home" (client_calling 10 home_request "/home" "psk" some_client).agent
    ≡ some (returns "secret")
unfolding prepare_connect
connect_password_example =
    connect_password 10 12 home_request scanned some_client idle new_agent "/home" "psk"
      (client_calling 10 home_request "/home" "psk" some_client)
      (world_calling home_request "/home" some_client idle) refl refl (λ e. cc) (inl refl) refl
      (omega arith)

connect_hidden_example :
    (answer_of 12 "" (client_calling 10 hidden_request "" "" some_client).agent
      ≡ some (returns "secret"))
    × (answer_of 12 "/cave" (client_calling 10 hidden_request "" "" some_client).agent
        ≡ answer_of 12 "/cave" some_client.agent)
unfolding prepare_connect
connect_hidden_example =
    connect_hidden 10 12 hidden_request scanned some_client idle new_agent "/cave" ""
      (client_calling 10 hidden_request "" "" some_client)
      (world_calling hidden_request "" some_client idle) refl refl (λ e. cc) refl refl (omega arith)
      (λ e. cc)

abbrev trial : World
trial = world_of on_trial

connect_stuck_example :
    (s : Attempts) × ConnectReach (record { client = some_client; world = idle; attempts = [] }) s
    × All IsFinished s.attempts
    × (connecting_ssid_of s ≡ "home")
unfolding prepare_connect
connect_stuck_example =
    connect_stuck some_client idle home_request work_request scanned scanned "/home" "/work" "psk"
      "psk" 20 10 (some "Aborted") none refl (λ e. cc) refl (λ e. cc)

abbrev no_attempt : Attempts
no_attempt = record { client = some_client; world = idle; attempts = [] }

abbrev two_begun : Attempts
two_begun = begun (begun no_attempt work_request) home_request

abbrev home_begins : Attempts
home_begins = record {
  client = record some_client { connect_id = 1 };
  world = idle;
  attempts = record { request = home_request; id = 1; phase = scanning } ∷ [];
}

abbrev home_waits : Attempts
home_waits = record {
  client = client_calling 10 home_request "/home" "psk" home_begins.client;
  world = world_calling home_request "/home" home_begins.client idle;
  attempts = record { request = home_request; id = 1; phase = waiting "/home" } ∷ [];
}

home_is_reached : ConnectReach no_attempt home_waits
unfolding begin_connect prepare_connect
home_is_reached = next (next here (begins no_attempt home_request)) (
    prepares home_begins [] (record { request = home_request; id = 1; phase = scanning }) [] 10
      scanned "/home" home_waits.client home_waits.world refl refl refl)

-- The attempt on "work" has begun first, and that on "home" behind it.
finish_connect_newest_example :
    IsNewestEnd "/work" none (begun no_attempt work_request).client no_attempt two_begun
finish_connect_newest_example =
    finish_connect_newest no_attempt two_begun work_request "/work" none
      (next here (begins (begun no_attempt work_request) home_request)) (omega arith)
