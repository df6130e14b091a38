-- ===== src/Dbus/Examples.antt =====
-- internal/dbus: the theorems of this part at concrete inputs.
use x_network.Base.{◌≡◌, false, some, All}
use x_network.State.{connecting, failed}
use x_network.Runtime.{World, state_of}
use x_network.Fixtures.{world_of, on_wifi, some_client}
use x_network.Dbus.Properties
use x_network.Dbus.Properties.{get_of, get_all, get-get_all}
use x_network.Dbus.Service.{properties}
use x_network.Dbus.Announced.{IsServed, properties-IsServed}
use x_network.Dbus.Methods
use x_network.Dbus.Methods.{Params, connect_with}
use x_network.Dbus.Tasks.{service_connect_ends, service_connect_saved_ends}
use x_network.Dbus.Replies.{connect_errors}

get-get_all_example :
    Properties.get on_wifi "org.xshell.Network" "ActiveSSID"
    ≡ get_of "ActiveSSID" (get_all on_wifi "org.xshell.Network")
get-get_all_example = get-get_all on_wifi "org.xshell.Network" "ActiveSSID"

properties-IsServed_example : All (IsServed on_wifi) properties
properties-IsServed_example = properties-IsServed on_wifi

abbrev home_params : Params
home_params = record { ssid = "home"; password = "secret"; security = "psk"; hidden = false }

abbrev before : World
before = world_of (record on_wifi { last_error = "Authentication failed" })

connect_errors_example :
    let s1 = state_of (connect_with home_params before).0 in
    let s2 =
      state_of (service_connect_ends "home" (some "Aborted") (connect_with home_params before).0) in
    let t1 = state_of (Methods.connect_saved (some some_client) "home" before).0 in
    let t2 = state_of (
      service_connect_saved_ends
        (some "Aborted")
        (Methods.connect_saved (some some_client) "home" before).0) in
    (s1.connection_state ≡ connecting)
    × (s1.active_ssid ≡ "home")
    × (s1.last_error ≡ "")
    × (s2.connection_state ≡ failed)
    × (s2.last_error ≡ "Aborted")
    × (t1.connection_state ≡ connecting)
    × (t1.active_ssid ≡ "home")
    × (t2.connection_state ≡ failed)
    × (t2.last_error ≡ "Authentication failed")
connect_errors_example = connect_errors some_client home_params "Aborted" before (λ e. cc)
