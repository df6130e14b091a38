-- ===== src/Iwd/Connect/Newest.antt =====
-- internal/iwd/client.go: the ids of attempts of `Connect`, over any run of attempts.
use x_network.Base.{
  ℕ, ◌+◌, ◌%◌, ◌<◌, ◌≡◌, refl, ap, sym, ◌∙◌, ◌⊎◌, inl, inr, String, List, [], ◌∷◌, ◌++◌, Option,
  arith,
}
use x_network.Sysfs.{uint64_mod}
use x_network.State.{Network}
use x_network.Runtime.{World, state_of}
use x_network.Iwd.Client.{Client}
use x_network.Iwd.Connect.{
  Request, begin_connect, calling, prepare_connect, prepared, finish_connect,
}
use x_network.Iwd.Connect.Attempts.{
  Attempt, Attempts, ConnectStep, begins, prepares, refuses, finishes, ConnectReach, here, next,
  scanning, finish_connect_current,
}

abbrev pub count : List Attempt → ℕ
count [] = 0
count (a ∷ rest) = 1 + count rest

count-replace :
    (before behind : List Attempt) (a b : Attempt)
    → count (before ++ a ∷ behind) ≡ count (before ++ b ∷ behind)
count-replace [] behind a b = refl
count-replace (x ∷ before) behind a b = ap (λ n. 1 + n) (count-replace before behind a b)

-- A new attempt of the request.
abbrev pub begun : Attempts → Request → Attempts
begun s req = record s {
  client = (begin_connect s.client).0;
  attempts =
      record { request = req; id = (begin_connect s.client).1; phase = scanning } ∷ s.attempts;
}

prepared-connect_id :
    (now : ℕ) (req : Request) (found : String × String) (path : String) (c c' : Client)
    (w w' : World)
    → prepared now req found c w ≡ calling path c' w'
    → c'.connect_id ≡ c.connect_id
unfolding prepared
prepared-connect_id now req (at, security) path c c' w w' e = ground arith

prepare_connect-connect_id :
    (now : ℕ) (req : Request) (nets : Option (List Network)) (path : String) (c c' : Client)
    (w w' : World)
    → prepare_connect now req nets c w ≡ calling path c' w'
    → c'.connect_id ≡ c.connect_id
unfolding prepare_connect
prepare_connect-connect_id now req nets path c c' w w' e =
    prepared-connect_id now req _ path c c' w w' e

-- n attempts have begun between the two: the id has moved on by as many.
abbrev IsBehind : ℕ → Attempts → Attempts → Type 0
IsBehind n s t =
    (count t.attempts ≡ count s.attempts + n)
    × (t.client.connect_id ≡ (s.client.connect_id + n) % uint64_mod)

step-IsBehind :
    (s t u : Attempts) (n : ℕ) → ConnectStep t u → IsBehind n s t → (m : ℕ) × IsBehind m s u
unfolding begin_connect
step-IsBehind s t u n (begins _ req) (more, id) = (n + 1, (omega (arith, more), omega (arith, id)))
step-IsBehind s t u n (prepares _ before a behind now nets path c w at phase e) (more, id) = (
  n,
  (
    sym (ap count at ∙ count-replace before behind a _) ∙ more,
    prepare_connect-connect_id now a.request nets path t.client c t.world w e ∙ id,
  ),
)
step-IsBehind s t u n (refuses _ before a behind now nets scan_error e at phase refused)
      (more, id) =
    (n, (sym (ap count at ∙ count-replace before behind a _) ∙ more, id))
step-IsBehind s t u n (finishes _ before a behind path err at phase) (more, id) = (
  n,
  (
    sym (ap count at ∙ count-replace before behind a _) ∙ more,
    (finish_connect_current path a.id err t.client t.world).1 ∙ id,
  ),
)

reach-IsBehind :
    (s t : Attempts)
    → s.client.connect_id < uint64_mod
    → ConnectReach s t
    → (n : ℕ) × IsBehind n s t
reach-IsBehind s t small here = (0, (omega arith, omega arith))
reach-IsBehind s t small (next {t = m} before step) =
    let (n, behind) = reach-IsBehind s m small before in step-IsBehind s m t n step behind

-- The two ends of an attempt that has begun in s and gave the client c: it is the newest one in t,
-- and clears the SSID; or a later one has begun, and it leaves the world alone.
abbrev pub IsNewestEnd : String → Option String → Client → Attempts → Attempts → Type 0
IsNewestEnd path err c s t =
    let w = (finish_connect path c.connect_id err t.client t.world).1 in
    ((count t.attempts ≡ count s.attempts + 1)
      × (state_of w ≡ record (state_of t.world) { connecting_ssid = "" }))
    ⊎ ((count s.attempts + 1 < count t.attempts) × (w ≡ t.world))

-- Whatever attempts begin, prepare their calls and end behind the beginning of an attempt: at its
-- own end it clears the SSID of the network being connected, and nothing else, if no later attempt
-- has begun, and leaves the world alone if one has. Fewer than 2 ^ 64 - 1 begin meanwhile, so
-- that the ids do not come round.
pub finish_connect_newest :
    (s t : Attempts) (req : Request) (path : String) (err : Option String)
    → ConnectReach (begun s req) t
    → count t.attempts < count s.attempts + uint64_mod
    → IsNewestEnd path err (begun s req).client s t
unfolding begin_connect
finish_connect_newest s t req path err reach few =
    let small : (begun s req).client.connect_id < uint64_mod = omega arith in
    let (n, (more, id)) = reach-IsBehind (begun s req) t small reach in
    elim (finish_connect_current path (begun s req).client.connect_id err t.client t.world).0 [
      | inl (same, cleared) ↦ inl (omega (arith, few, more, id, same, small), cleared)
      | inr (other, kept) ↦ inr (omega (arith, few, more, id, other, small), kept)
    ]
