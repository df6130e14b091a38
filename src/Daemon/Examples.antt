-- ===== src/Daemon/Examples.antt =====
-- cmd/x-network/main.go: the theorems on the daemon as a whole at concrete inputs.
use x_network.Iwd.Steps.{IwdStep}
use x_network.State.Coherent.{IsCoherent}
use x_network.Base.{map, ◌+◌, ◌≡◌, ◌≢◌, refl, eq_iff, arith, String, true, [], none, some, All}
use x_network.Variant.{string, uint32, returns}
use x_network.Runtime.{Shell, World, state_of, modify, modify_with}
use x_network.Fixtures.{world_of, on_wifi, some_ip, quiet_bus, usb_kernel, usb0, with_usb}
use x_network.Iwd.Client.{new_client}
use x_network.Iwd.Client.Setup.{subscribe_to_iwd_lifecycle}
use x_network.Netlink.Kernel.{Message, rtm_newlink}
use x_network.Netlink.Watch.{handle_raw_message}
use x_network.Netlink.Link.{new_watcher, handle_link_message}
use x_network.Netlink.Sockets.{open_watcher}
use x_network.Netlink.Address.{trigger_weather}
use x_network.Netlink.Weather.{weather_count}
use x_network.Traffic.{new_monitor}
use x_network.Dbus.Service.{Registration, new_service, changed_properties}
use x_network.Dbus.Methods.{scan, service_error, request_usb_network}
use x_network.Dbus.Properties.{interface, networks_to_dbus, get}
use x_network.Dbus.Steps.{MethodStep}
use x_network.Daemon.{first_world, mark_startup, subscribed_client, watcher_of, handle_sleep_signal}
use x_network.Daemon.Resume.{wake_signal, resume_weather}
use x_network.Daemon.System.{
  client_starts, watcher_tried, served, System, IsStarted, DaemonStep, DaemonReach,
  reach-IsCoherent,
}
use x_network.Iwd.Control.{try_usb_fallback}
use x_network.Dbus.Announced.{IsCurrent}
use x_network.Daemon.Told.{last_told, told_names, last_told-IsCurrent}
use x_network.Daemon.Fallback.{IsStale, fallback-IsStale}
use x_network.Daemon.Served.{IsServed, reach-IsServed}

resume_weather_example :
    weather_count
      (trigger_weather 5
        (some some_ip)
        (handle_sleep_signal 3 true wake_signal (world_of on_wifi))).effects
    ≡ weather_count (handle_sleep_signal 3 true wake_signal (world_of on_wifi)).effects + 1
resume_weather_example = resume_weather 3 5 true some_ip (world_of on_wifi) (λ s. refl) refl refl

abbrev started : System
started = record {
  stage = client_starts;
  client = (subscribed_client (some quiet_bus) (mark_startup first_world)).0;
  world = (subscribed_client (some quiet_bus) (mark_startup first_world)).1;
  watcher = none;
  monitor = new_monitor;
}

started-IsStarted : IsStarted started
started-IsStarted = IsStarted.starts (some quiet_bus)

-- The client has found its station.
abbrev attached : System
attached = record started { client = some (record new_client { station_path = "/station" }) }

abbrev watching : System
watching = record attached {
  stage = watcher_tried;
  world = (watcher_of (open_watcher none none attached.world)).0;
  watcher = (watcher_of (open_watcher none none attached.world)).1;
}

abbrev registration : Registration
registration = record {
  connect = none;
  request_name = none;
  primary_owner = true;
  export_service = none;
  export_properties = none;
}

abbrev registered : System
registered = record watching { stage = served; world = (new_service registration watching.world).0 }

abbrev usb_arrives : Message
usb_arrives = record { kind = rtm_newlink; payload = [] }

-- A telephone was plugged in.
abbrev plugged : System
plugged = record registered {
  watcher = some (handle_raw_message 5 usb_kernel usb_arrives new_watcher registered.world).0;
  world = (handle_raw_message 5 usb_kernel usb_arrives new_watcher registered.world).1;
}

-- A client asked for a scan.
abbrev scanning : System
scanning = record plugged { world = (scan plugged.client plugged.world).0 }

watcher_at_start : registered.watcher ≡ some new_watcher
unfolding watcher_of open_watcher
watcher_at_start = refl

registration_succeeds : (new_service registration watching.world).1 ≡ none
unfolding new_service
registration_succeeds = refl

client_at_start : started.client ≡ some new_client
unfolding subscribed_client
client_at_start = refl

reaches_watching : DaemonReach started watching
reaches_watching =
    DaemonReach.next
      (DaemonReach.next DaemonReach.here (
        DaemonStep.iwd new_client (record new_client { station_path = "/station" }) started.world
          client_at_start (IwdStep.finds_station "/station")))
      (DaemonStep.opens_watcher none none refl)

reaches_scanning : DaemonReach started scanning
reaches_scanning =
    DaemonReach.next
      (DaemonReach.next
        (DaemonReach.next reaches_watching
          (DaemonStep.registers registration refl registration_succeeds))
        (DaemonStep.receives 5 usb_kernel usb_arrives new_watcher watcher_at_start))
      (DaemonStep.serves scanning.world MethodStep.scans)

reach-IsCoherent_example : IsCoherent (state_of scanning.world)
reach-IsCoherent_example = reach-IsCoherent started scanning started-IsStarted reaches_scanning

reach-IsServed_example :
    (get (state_of scanning.world) interface "Frequency" ≡ returns (uint32 0))
    × (get (state_of scanning.world) interface "Band" ≡ returns (string "unknown"))
    × All IsServed (networks_to_dbus (state_of scanning.world).networks)
reach-IsServed_example = reach-IsServed started scanning started-IsStarted reaches_scanning

told_of_scanning :
    last_told scanning.world.effects ≡ some (changed_properties (state_of scanning.world))
unfolding modify_with mark_startup watcher_of open_watcher new_service handle_raw_message scan
    modify handle_link_message subscribed_client subscribe_to_iwd_lifecycle
told_of_scanning = refl

last_told-IsCurrent_example :
    (map (λ p. p.0) (changed_properties (state_of scanning.world)) ≡ told_names)
    × All (IsCurrent (state_of scanning.world)) (changed_properties (state_of scanning.world))
last_told-IsCurrent_example =
    last_told-IsCurrent started scanning (changed_properties (state_of scanning.world))
      started-IsStarted reaches_scanning told_of_scanning

abbrev all_succeeds : Shell
all_succeeds = λ command. none

usb0_is_not_lo : ◌≢◌ {A = String} "usb0" "lo"
usb0_is_not_lo = λ e. ground (arith, eq_iff "usb0" "lo")

fallback-IsStale_example :
    let unplugged = λ (v : World). (handle_link_message usb_kernel [] true new_watcher v).1 in
    let w' = try_usb_fallback all_succeeds "usb0" unplugged (world_of with_usb) in
    IsStale (state_of w')
    × ((request_usb_network w').1 ≡ service_error "No USB network interface detected")
fallback-IsStale_example =
    fallback-IsStale all_succeeds "usb0" usb_kernel [] new_watcher (world_of with_usb) usb0 refl
      refl refl (λ e. cc) usb0_is_not_lo refl
