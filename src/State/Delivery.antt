-- ===== src/State/Delivery.antt =====
-- internal/state/state.go, `Update` between goroutines: the state changes under the lock, the
-- callback runs after it, so that several copies can be on their way at once.
use mathlib.Core.List.{head?, append_assoc, append-nil}
use x_network.Base.{◌≡◌, refl, ◌≢◌, ◌⊎◌, inl, inr, List, [], ◌∷◌, ◌++◌, some}
use x_network.State.{State}

pub record Deliveries : Type 0 where
  pub state : State
  pub in_flight : List State  -- copies not yet passed to the callback, newest first
  pub delivered : List State  -- copies passed to the callback, newest first

abbrev pub start : State → Deliveries
start s = record { state = s; in_flight = []; delivered = [] }

-- `write` is an Update up to the unlocking; `deliver` is the callback of one that waits, of
-- whichever goroutine comes first.
pub data Step : Deliveries → Deliveries → Type 0 where
  write :
      (c : Deliveries) (fn : State → State)
      → Step c (record c { state = fn c.state; in_flight = fn c.state ∷ c.in_flight })
  deliver :
      (c : Deliveries) (newer : List State) (copy : State) (older : List State)
      → c.in_flight ≡ newer ++ copy ∷ older
      → Step c (record c { in_flight = newer ++ older; delivered = copy ∷ c.delivered })

-- The callback that runs is that of the oldest Update.
abbrev pub IsInOrder : {c d : Deliveries} → Step c d → Type 0
IsInOrder (write c fn) = Unit
IsInOrder (deliver c newer copy older e) = older ≡ []

pub data Reach (c : Deliveries) : Deliveries → Type 0 where
  here : Reach c c
  next : {d e : Deliveries} → Reach c d → Step d e → Reach c e

abbrev pub AllInOrder : {c d : Deliveries} → Reach c d → Type 0
AllInOrder here = Unit
AllInOrder (next r s) = AllInOrder r × IsInOrder s

-- The copies still to come, then those seen, and at the end the state before the first change.
abbrev history : State → Deliveries → List State
history first c = c.in_flight ++ (c.delivered ++ first ∷ [])

history-Step :
    (first : State) {c d : Deliveries} (s : Step c d)
    → IsInOrder s
    → head? (history first c) ≡ some c.state
    → head? (history first d) ≡ some d.state
history-Step first (write c fn) o h = refl
history-Step first (deliver c newer copy older e) o h =
    rw (o, append-nil) (simp (e, o, append_assoc) at h)

history-Reach :
    (s : State) {c : Deliveries} (r : Reach (start s) c)
    → AllInOrder r
    → head? (history s c) ≡ some c.state
history-Reach s here o = refl
history-Reach s (next r st) (o, last) = history-Step s st last (history-Reach s r o)

head-append :
    (xs : List State) (s t : State) → head? (xs ++ s ∷ []) ≡ some t → (head? xs ≡ some t) ⊎ (t ≡ s)
head-append [] s t h = inr (cc)
head-append (x ∷ xs) s t h = inl h

-- While the callbacks run in the order of the changes, a client that has seen them all has the
-- manager's state, or nothing has changed.
pub deliveries_settle :
    (s : State) {c : Deliveries} (r : Reach (start s) c)
    → AllInOrder r
    → c.in_flight ≡ []
    → (head? c.delivered ≡ some c.state) ⊎ (c.state ≡ s)
deliveries_settle s {c} r o settled =
    head-append c.delivered s c.state (simp settled at (history-Reach s r o))

-- Two Updates, of which the second changes what the first left, can overtake each other on the
-- way to the callback: all is delivered, and the last copy handed over is the one from before the
-- last change.
pub deliveries_overtake :
    (s : State) (f g : State → State)
    → g (f s) ≢ f s
    → (c : Deliveries) × Reach (start s) c
      × (c.in_flight ≡ [])
      × (c.state ≡ g (f s))
      × (head? c.delivered ≡ some (f s))
      × (head? c.delivered ≢ some c.state)
deliveries_overtake s f g differ = (
  record { state = g (f s); in_flight = []; delivered = f s ∷ g (f s) ∷ [] },
  next
      (next (next (next here (write (start s) f)) (write _ g))
        (deliver _ [] (g (f s)) (f s ∷ []) refl))
      (deliver _ [] (f s) [] refl),
  refl,
  refl,
  refl,
  λ e. differ (cc),
)
