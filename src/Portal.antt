-- ===== src/Portal.antt =====
-- internal/iwd/client.go, `checkCaptivePortal`: HTTP probes that tell a captive portal.
use x_network.Base.{
  ℕ, ◌≡◌, ◌≢◌, ◌⊎◌, inl, inr, ◌↔◌, String, Bool, true, false, not, ◌&&◌, ◌||◌, List, [], ◌∷◌,
  Option, none, some, ◌==◌, if◌then◌else◌, contains, arith,
}

-- The web, through an http.Client that follows no redirect: what a GET brings, `none` for an
-- error. `redirect` is the URL that the client is sent to, if it is.
pub record Response : Type 0 where
  pub status : ℕ
  pub redirect : Option String
  pub body : String

abbrev pub Web : Type 0
Web = String → Option Response

abbrev pub firefox : String
firefox = "http://detectportal.firefox.com/success.txt"

abbrev pub google : String
google = "http://www.gstatic.com/generate_204"

abbrev pub apple : String
apple = "http://captive.apple.com/hotspot-detect.html"

abbrev pub endpoints : List String
endpoints = firefox ∷ google ∷ apple ∷ []

-- `CheckRedirect` stores the URL in the result variable.
abbrev pub captured : Option String → String → String
captured none url = url
captured (some target) url = target

unfoldable pub verdict : String → Response → String → Bool × String
verdict endpoint resp url =
    if resp.status == 302 || resp.status == 301
    then (true, url)
    else (if contains endpoint "firefox" && not (contains resp.body "success")
        then (true, endpoint)
        else (if contains endpoint "generate_204" && not (resp.status == 204)
            then (true, endpoint)
            else (false, "")))

-- An endpoint that does not answer is passed over; the first that does decides.
unfoldable pub probe : Web → List String → String → Bool × String
unfolding verdict
probe web [] url = (false, "")
probe web (endpoint ∷ rest) url =
    let later = probe web rest url in
    elim (web endpoint) [
      | none ↦ later
      | some resp ↦ verdict endpoint resp (captured resp.redirect url)
    ]

unfoldable pub check_captive_portal : Web → Bool × String
unfolding probe
check_captive_portal web = probe web endpoints ""

-- The answers that pass for an open network, at each of the three endpoints.
abbrev pub IsOpen : String → Response → Type 0
IsOpen endpoint resp =
    (resp.status ≢ 301)
    × (resp.status ≢ 302)
    × ((endpoint ≢ firefox) ⊎ (contains resp.body "success" ≡ true))
    × ((endpoint ≢ google) ⊎ (resp.status ≡ 204))

-- No endpoint answers, or the first that answers is this one, with this response.
abbrev pub FirstAnswer : Web → List String → String → Response → Type 0
FirstAnswer web [] endpoint resp = ⊥
FirstAnswer web (e ∷ rest) endpoint resp =
    ((e ≡ endpoint) × (web e ≡ some resp)) ⊎ ((web e ≡ none) × FirstAnswer web rest endpoint resp)

firefox-google : firefox ≢ google
firefox-google = λ e. cc

apple-firefox : apple ≢ firefox
apple-firefox = λ e. cc

apple-google : apple ≢ google
apple-google = λ e. cc

verdict-firefox :
    (resp : Response) (url : String) → ((verdict firefox resp url).0 ≡ false) ↔ IsOpen firefox resp
unfolding verdict
verdict-firefox resp url = ground (arith, firefox-google)

verdict-google :
    (resp : Response) (url : String) → ((verdict google resp url).0 ≡ false) ↔ IsOpen google resp
unfolding verdict
verdict-google resp url = ground (arith, firefox-google)

verdict-apple :
    (resp : Response) (url : String) → ((verdict apple resp url).0 ≡ false) ↔ IsOpen apple resp
unfolding verdict
verdict-apple resp url = ground (arith, apple-firefox, apple-google)

-- The first endpoint that answers decides: no portal is reported exactly if its answer is no
-- 301 or 302 and, from Firefox's endpoint, contains "success", and from Google's has status
-- 204. From Apple's endpoint any other answer will do.
pub check_captive_portal_first :
    (web : Web) (endpoint : String) (resp : Response)
    → FirstAnswer web endpoints endpoint resp
    → ((check_captive_portal web).0 ≡ false) ↔ IsOpen endpoint resp
unfolding check_captive_portal
check_captive_portal_first web endpoint resp (inl (e, a)) = rw (← e, a) (verdict-firefox resp _)
check_captive_portal_first web endpoint resp (inr (n, inl (e, a))) =
    rw (← e, n, a) (verdict-google resp _)
check_captive_portal_first web endpoint resp (inr (n, inr (m, inl (e, a)))) =
    rw (← e, n, m, a) (verdict-apple resp _)
check_captive_portal_first web endpoint resp (inr (n, inr (m, inr h))) = absurd h.1

-- There is a portal, or there is no URL.
pub check_captive_portal_url :
    (web : Web)
    → ((check_captive_portal web).0 ≡ true)
      ⊎ (((check_captive_portal web).0 ≡ false) × ((check_captive_portal web).1 ≡ ""))
unfolding check_captive_portal
check_captive_portal_url web = ground arith
