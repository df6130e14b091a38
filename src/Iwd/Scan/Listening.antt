-- ===== src/Iwd/Scan/Listening.antt =====
-- internal/iwd/client.go: the goroutine of `Scan` that waits for the end of the scan.
use x_network.Base.{
  ◌≡◌, refl, ap, ◌∙◌, if◌then◌else◌, Bool, true, false, List, [], ◌∷◌, ◌++◌, All, String,
}
use x_network.Runtime.{call, World, act}
use x_network.Iwd.Bus.{Signal}
use x_network.Iwd.Scan.{ends_scan, scan_listener}

-- What is given at the end of the scan.
abbrev unsubscribed : World → World × Bool
unsubscribed w = (act (call "org.freedesktop.DBus" "RemoveMatch scan" []) w, true)

same_either_way : (b : Bool) (r r' : World × Bool) → r' ≡ r → (if b then r else r') ≡ r
same_either_way true r r' e = refl
same_either_way false r r' e = e

-- One signal that the scan of this station has ended is enough, whatever else comes before it and
-- after it; the subscription is then given back, once.
scan_listener_ends :
    (station : String) (before after : List Signal) (sig : Signal) (w : World)
    → ends_scan station sig ≡ true
    → scan_listener station (before ++ sig ∷ after) w ≡ unsubscribed w
unfolding scan_listener
scan_listener_ends station [] after sig w ends =
    ap (λ b. if b then unsubscribed w else scan_listener station after w) ends
scan_listener_ends station (other ∷ before) after sig w ends =
    same_either_way (ends_scan station other) (unsubscribed w)
      (scan_listener station (before ++ sig ∷ after) w)
      (scan_listener_ends station before after sig w ends)

-- With no such signal it waits on, and keeps the subscription.
scan_listener_waits :
    (station : String) (sigs : List Signal) (w : World)
    → All (λ sig. ends_scan station sig ≡ false) sigs
    → scan_listener station sigs w ≡ (w, false)
unfolding scan_listener
scan_listener_waits station [] w others = refl
scan_listener_waits station (sig ∷ sigs) w (other, others) =
    ap (λ b. if b then unsubscribed w else scan_listener station sigs w) other
    ∙ scan_listener_waits station sigs w others
