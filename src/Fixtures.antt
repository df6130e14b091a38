-- ===== src/Fixtures.antt =====
-- Data for the examples: a state of each kind, and the world with it, as nobody listens.
use x_network.Base.{true, false, [], ◌∷◌, none, some}
use x_network.State.{State, initial, connected, connecting}
use x_network.Runtime.{World}
use x_network.Sysfs.{Sysfs}
use x_network.Netlink.Kernel.{Link, Ip, Address, Route, Kernel}
use x_network.Iwd.Agent.{new_agent}
use x_network.Iwd.Bus.{Bus}
use x_network.Iwd.Client.{Client}

abbrev pub world_of : State → World
world_of s = record { manager = record { state = s; on_change = none }; effects = [] }

-- The WiFi is connected over wlan0.
abbrev pub on_wifi : State
on_wifi = record initial {
  wifi_enabled = true;
  connection_state = connected;
  active_ssid = "home";
  interface_name = "wlan0";
}

-- The WiFi is connected, and a telephone offers tethering.
abbrev pub with_usb : State
with_usb = record on_wifi {
  usb_interface_detected = true;
  usb_tethering_available = true;
  usb_interface_name = "usb0";
  usb_interface_index = 7;
}

-- iwd tries to connect.
abbrev pub on_trial : State
on_trial = record initial {
  connection_state = connecting;
  active_ssid = "home";
  connecting_ssid = "home";
  interface_name = "wlan0";
}

-- A file system where usb0 is on the USB bus.
abbrev pub usb_sysfs : Sysfs
usb_sysfs = record {
  entries = some ("lo" ∷ "eth0" ∷ "wlan0" ∷ []);
  read_file = λ iface file. none;
  exists = λ iface file. false;
  on_usb_bus = λ iface. true;
}

abbrev pub usb0 : Link
usb0 = record {
  index = 7;
  name = "usb0";
  oper_state_up = true;
  carrier = some 1;
  hardware_address = "02:00:00:00:00:01";
}

abbrev pub some_ip : Ip
some_ip = record { text = "192.168.42.10"; is_ipv4 = true }

abbrev pub usb_address_message : Address
usb_address_message = record { index = 7; address = some some_ip }

abbrev pub route_over_usb0 : Route
route_over_usb0 = record { dst = none; gateway = some some_ip; out_iface = 7 }

-- A kernel with usb0 and a default route over it, whose link messages are all about usb0.
abbrev pub usb_kernel : Kernel
usb_kernel = record {
  links = some (usb0 ∷ []);
  addresses = some (usb_address_message ∷ []);
  routes = some (route_over_usb0 ∷ []);
  sysfs = usb_sysfs;
  parse_link = λ payload. some usb0;
  parse_address = λ payload. some usb_address_message;
}

abbrev pub quiet_bus : Bus
quiet_bus = record {
  managed_objects = some [];
  managed_objects_error = "";
  network_props = λ path. none;
  ordered_networks = λ station. some [];
  failure = λ object method. none;
}

abbrev pub some_client : Client
some_client = record {
  device_path = "/net/connman/iwd/0/3";
  station_path = "/net/connman/iwd/0/3";
  initialized = true;
  agent = some new_agent;
  connect_id = 0;
}
