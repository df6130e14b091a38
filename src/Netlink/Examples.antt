-- ===== src/Netlink/Examples.antt =====
-- internal/netlink/watcher.go: the theorems of this part at concrete inputs.
use x_network.Base.{ℕ, ◌+◌, ◌≡◌, refl, inl, inr, true, false, List, [], ◌∷◌, some}
use x_network.State.{initial}
use x_network.Runtime.{World, state_of}
use x_network.Fixtures.{world_of, on_wifi, usb_sysfs, usb0, some_ip, usb_kernel}
use x_network.Netlink.Kernel.{is_usb_interface, rtm_newlink, rtm_newaddr}
use x_network.Netlink.Link.{link_removed, link_present, new_watcher}
use x_network.Netlink.Address.{trigger_weather}
use x_network.Netlink.Watch.{Round, received, run}
use x_network.Netlink.UsbState.{UsbInv, run-UsbInv}
use x_network.Netlink.Tethering.{link_removed-link_present}
use x_network.Netlink.Weather.{
  weather_count, IsOneIf, IsResumeDue, IsStartDue, weather_count-trigger_weather,
}

-- A telephone appears, and gets an address.
abbrev rounds : List Round
rounds =
    received (
      record { now = 5; kernel = usb_kernel; message = record { kind = rtm_newlink; payload = [] } }
      ∷ record {
        now = 6;
        kernel = usb_kernel;
        message = record { kind = rtm_newaddr; payload = [] };
      }
      ∷ [])
    ∷ []

run-UsbInv_example : UsbInv (state_of (run usb_kernel rounds new_watcher (world_of initial)).1)
run-UsbInv_example = run-UsbInv usb_kernel rounds new_watcher (world_of initial) (record {
  available_detected = inl refl;
  connected_detected = inl refl;
  undetected = inr (refl, refl);
})

link_removed-link_present_example :
    link_removed 7 (link_present usb_sysfs usb0 on_wifi).0 ≡ record on_wifi {
      usb_interface_detected = false;
      usb_tethering_available = false;
      usb_tethering_connected = false;
      usb_interface_name = "";
      usb_interface_index = 0;
    }
unfolding is_usb_interface
link_removed-link_present_example = link_removed-link_present usb_sysfs usb0 on_wifi 7 refl

-- The daemon has just started, and has also been resumed.
abbrev fresh : World
fresh = world_of (record initial { is_startup = true; was_resumed = true; resume_timestamp = 3 })

weather_count-trigger_weather_example :
    (resumes : ℕ) × (starts : ℕ) × (weather_count (trigger_weather 5 (some some_ip) fresh).effects
      ≡ 0 + resumes + starts)
    × IsOneIf (IsResumeDue 5 (some some_ip) (state_of fresh)) resumes
    × IsOneIf (IsStartDue (some some_ip) (state_of fresh)) starts
weather_count-trigger_weather_example =
    weather_count-trigger_weather 5 (some some_ip) fresh (λ s. refl)
