-- ===== src/Daemon/Resume.antt =====
-- cmd/x-network/main.go with internal/netlink/watcher.go: the weather refresh from a resume to the
-- next address.
use x_network.Base.{ℕ, ◌+◌, ◌-◌, ◌≡◌, Bool, true, false, [], ◌∷◌, some, ltb, arith}
use x_network.Runtime.{World, state_of, modify}
use x_network.Iwd.Bus.{Value, Signal}
use x_network.Netlink.Kernel.{Ip}
use x_network.Netlink.Address.{resume_window, trigger_weather}
use x_network.Netlink.Weather.{IsQuiet, weather_count, weather_count-stages, count_of}
use x_network.Daemon.{handle_sleep_signal}

abbrev pub wake_signal : Signal
wake_signal = record {
  name = "org.freedesktop.login1.Manager.PrepareForSleep";
  path = "/org/freedesktop/login1";
  body = Value.flag false ∷ [];
}

-- After a resume the first IPv4 address starts one weather fetch if it comes within 60 s, and
-- none later, on a daemon that has had its fetch for the start and whose change callback starts
-- none by itself.
pub resume_weather :
    (woke now : ℕ) (has_client : Bool) (ip : Ip) (w : World)
    → IsQuiet w
    → ip.is_ipv4 ≡ true
    → (state_of w).is_startup ≡ false
    → let w1 = handle_sleep_signal woke has_client wake_signal w in
      weather_count (trigger_weather now (some ip) w1).effects
      ≡ weather_count w1.effects + count_of (ltb (now - woke) resume_window)
unfolding handle_sleep_signal modify
resume_weather woke now true ip w q v4 started =
    let w1 = handle_sleep_signal woke true wake_signal w in
    ground (arith, weather_count-stages now (some ip) w1 q)
resume_weather woke now false ip w q v4 started =
    let w1 = handle_sleep_signal woke false wake_signal w in
    ground (arith, weather_count-stages now (some ip) w1 q)
