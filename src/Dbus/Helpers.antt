-- ===== src/Dbus/Helpers.antt =====
-- internal/dbus/helpers.go: rfkill, the portal check of this package, and the browser.
use x_network.Base.{
  ◌≡◌, refl, String, Bool, true, false, not, ◌&&◌, ◌||◌, List, [], ◌∷◌, Option, none, some, ◌==◌,
  if◌then◌else◌, contains, arith,
}
use x_network.Runtime.{exec, World, Shell, act}
use x_network.Portal.{Response, Web, captured, firefox, google, apple, probe, verdict}

unfoldable pub set_rfkill : Shell → Bool → World → World × Option String
set_rfkill sh block w =
    let command = "rfkill" ∷ (if block then "block" else "unblock") ∷ "all" ∷ [] in
    (act (exec command) w, sh command)

-- The package has a copy of `checkCaptivePortal` of its own.
abbrev portal_endpoints : List String
portal_endpoints =
    "http://detectportal.firefox.com/success.txt" ∷ "http://www.gstatic.com/generate_204"
    ∷ "http://captive.apple.com/hotspot-detect.html" ∷ []

unfoldable pub check_endpoints : Web → List String → String → Bool × String
check_endpoints web [] url = (false, "")
check_endpoints web (endpoint ∷ rest) url =
    let later = check_endpoints web rest url in
    elim (web endpoint) [
      | none ↦ later
      | some resp ↦
          let url' = captured resp.redirect url in
          if resp.status == 302 || resp.status == 301
          then (true, url')
          else (if contains endpoint "firefox" && not (contains resp.body "success")
              then (true, endpoint)
              else (if contains endpoint "generate_204" && not (resp.status == 204)
                  then (true, endpoint)
                  else (false, "")))
    ]

unfoldable pub check_captive_portal : Web → Bool × String
unfolding check_endpoints
check_captive_portal web = check_endpoints web portal_endpoints ""

check_endpoints-probe :
    (web : Web) (es : List String) (url : String) → check_endpoints web es url ≡ probe web es url
unfolding check_endpoints probe
check_endpoints-probe web [] url = refl
check_endpoints-probe web (e ∷ es) url = ground (arith, check_endpoints-probe web es url)

-- The copy does what the original does.
pub check_captive_portal_same :
    (web : Web) → check_captive_portal web ≡ x_network.Portal.check_captive_portal web
unfolding check_captive_portal x_network.Portal.check_captive_portal
check_captive_portal_same web = check_endpoints-probe web portal_endpoints ""

-- The first opener that is installed; `none` if there is none, which is no error.
abbrev pub Installed : Type 0
Installed = String → Option String

unfoldable pub first_opener : Installed → List String → Option String
first_opener look [] = none
first_opener look (opener ∷ rest) =
    let later = first_opener look rest in
    elim (look opener) [ none ↦ later | some path ↦ some path ]

open_with : Option String → String → World → World
open_with none url w = w
open_with (some path) url w = act (exec (path ∷ url ∷ [])) w

unfoldable pub open_url : Installed → String → World → World
unfolding first_opener open_with
open_url look url w =
    open_with (first_opener look ("xdg-open" ∷ "gio" ∷ "gnome-open" ∷ "kde-open" ∷ [])) url w
