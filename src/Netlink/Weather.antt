-- ===== src/Netlink/Weather.antt =====
-- internal/netlink/watcher.go: the weather refresh after a start or a resume.
use x_network.Base.{
  ℕ, none, ◌+◌, ◌-◌, ◌<◌, ◌≡◌, ap, ◌∙◌, String, Bool, true, false, List, Option, some, arith,
  if◌then◌else◌, ◌⊎◌,
}
use x_network.State.{State}
use x_network.Runtime.{fetch_weather, Effect, go, World, state_of, act, modify}
use x_network.Runtime.Effects.{total, IsSilent, total-modify}
use x_network.Netlink.Kernel.{Ip}
use x_network.Netlink.Address.{
  resume_window, wants_resume_weather, wants_startup_weather, trigger_weather,
}

abbrev pub fetches_weather : Effect → ℕ
fetches_weather (go (fetch_weather reason)) = 1
fetches_weather _ = 0

-- How many weather fetches were started.
abbrev pub weather_count : List Effect → ℕ
weather_count = total fetches_weather

-- The change callback starts no fetch by itself.
abbrev pub IsQuiet : World → Type 0
IsQuiet = IsSilent fetches_weather

abbrev pub count_of : Bool → ℕ
count_of b = if b then 1 else 0

abbrev stage : Bool → String → (State → State) → World → World
stage b reason fn w = if b then modify fn (act (go (fetch_weather reason)) w) else w

stage-count :
    (b : Bool) (reason : String) (fn : State → State) (w : World)
    → IsQuiet w
    → weather_count (stage b reason fn w).effects ≡ weather_count w.effects + count_of b
stage-count true reason fn w q =
    omega (arith, total-modify fetches_weather fn (act (go (fetch_weather reason)) w) q)
stage-count false reason fn w q = omega arith

stage-IsQuiet :
    (b : Bool) (reason : String) (fn : State → State) (w : World)
    → IsQuiet w
    → IsQuiet (stage b reason fn w)
unfolding modify
stage-IsQuiet true reason fn w q = q
stage-IsQuiet false reason fn w q = q

pub weather_count-stages :
    (now : ℕ) (ip : Option Ip) (w : World)
    → IsQuiet w
    → weather_count (trigger_weather now ip w).effects
      ≡ weather_count w.effects
        + count_of (wants_resume_weather now ip (state_of w))
        + count_of (wants_startup_weather ip (state_of w))
unfolding trigger_weather
weather_count-stages now ip w q =
    let resume = wants_resume_weather now ip (state_of w) in
    let startup = wants_startup_weather ip (state_of w) in
    let clear = λ (st : State). record st { was_resumed = false; weather_triggered = true } in
    let clear' = λ (st : State). record st { is_startup = false; weather_triggered = true } in
    stage-count startup "startup" clear' (stage resume "resume" clear w)
      (stage-IsQuiet resume "resume" clear w q)
    ∙ ap (λ n. n + count_of startup) (stage-count resume "resume" clear w q)

-- The address of the event is of IPv4.
abbrev pub IsIpv4 : Option Ip → Type 0
IsIpv4 none = ⊥
IsIpv4 (some ip) = ip.is_ipv4 ≡ true

-- No fetch was started since the last resume or start.
abbrev pub IsUntriggered : State → Type 0
IsUntriggered st = st.weather_triggered ≡ false

abbrev pub IsResumeDue : ℕ → Option Ip → State → Type 0
IsResumeDue now ip st =
    (st.was_resumed ≡ true)
    × IsUntriggered st
    × (now - st.resume_timestamp < 60_000_000_000)
    × IsIpv4 ip

abbrev pub IsStartDue : Option Ip → State → Type 0
IsStartDue ip st = (st.is_startup ≡ true) × IsUntriggered st × IsIpv4 ip

-- One where P holds, none where it does not.
abbrev pub IsOneIf : Type 0 → ℕ → Type 0
IsOneIf P n = ((n ≡ 1) × P) ⊎ ((n ≡ 0) × ¬ P)

resume-IsOneIf :
    (now : ℕ) (ip : Option Ip) (st : State)
    → IsOneIf (IsResumeDue now ip st) (count_of (wants_resume_weather now ip st))
resume-IsOneIf now none st = ground arith
resume-IsOneIf now (some ip) st = ground arith

start-IsOneIf :
    (ip : Option Ip) (st : State)
    → IsOneIf (IsStartDue ip st) (count_of (wants_startup_weather ip st))
start-IsOneIf none st = ground arith
start-IsOneIf (some ip) st = ground arith

-- What an address event starts: one fetch for a resume less than 60 s ago, and one for a start
-- that is still marked; each only for an IPv4 address, and only if none was started since. Both can
-- be due at once. This is while the change callback starts none by itself.
pub weather_count-trigger_weather :
    (now : ℕ) (ip : Option Ip) (w : World)
    → IsQuiet w
    → (resumes : ℕ) × (starts : ℕ) × (weather_count (trigger_weather now ip w).effects
        ≡ weather_count w.effects + resumes + starts)
      × IsOneIf (IsResumeDue now ip (state_of w)) resumes
      × IsOneIf (IsStartDue ip (state_of w)) starts
weather_count-trigger_weather now ip w q = (
  count_of (wants_resume_weather now ip (state_of w)),
  count_of (wants_startup_weather ip (state_of w)),
  weather_count-stages now ip w q,
  resume-IsOneIf now ip (state_of w),
  start-IsOneIf ip (state_of w),
)

-- Once a fetch was started, later address events start none until a resume resets the flag,
-- and change nothing.
trigger_weather_once :
    (now later : ℕ) (ip ip' : Option Ip) (w : World)
    → (wants_resume_weather now ip (state_of w) ≡ true)
      ⊎ (wants_startup_weather ip (state_of w) ≡ true)
    → trigger_weather later ip' (trigger_weather now ip w) ≡ trigger_weather now ip w
unfolding trigger_weather modify
trigger_weather_once now later ip ip' w h = ground arith

-- Both tests of one event read the state from before. A resume within the last 60 s that comes
-- before the first IPv4 address after the start leads to two fetches, while the change callback
-- starts none by itself.
pub trigger_weather_doubles :
    (now : ℕ) (ip : Ip) (w : World)
    → IsQuiet w
    → ip.is_ipv4 ≡ true
    → (state_of w).is_startup ≡ true
    → (state_of w).was_resumed ≡ true
    → (state_of w).weather_triggered ≡ false
    → now - (state_of w).resume_timestamp < resume_window
    → weather_count (trigger_weather now (some ip) w).effects ≡ weather_count w.effects + 2
trigger_weather_doubles now ip w q v4 startup resumed fresh recent =
    ground (arith, weather_count-stages now (some ip) w q)
