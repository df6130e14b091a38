-- ===== src/Iwd/Connect/Attempts.antt =====
-- internal/iwd/client.go: attempts of `Connect` beside one another, as steps that any of them
-- may take next.
use x_network.Base.{
  ℕ, ◌≡◌, refl, ap, sym, ◌∙◌, ◌≢◌, ◌⊎◌, String, List, [], ◌∷◌, ◌++◌, Option, some, All, arith,
  eq_iff,
}
use x_network.State.{Network}
use x_network.Runtime.{World, state_of, modify}
use x_network.Iwd.Client.{Client}
use x_network.Iwd.Connect.{
  Request, begin_connect, refused, calling, prepare_connect, connect_scanned, finish_connect,
  network_with, nets_of, client_calling, world_calling,
}

pub data Phase : Type 0 where
  scanning : Phase
  waiting : (path : String) → Phase
  finished : Option String → Phase

pub record Attempt : Type 0 where
  pub request : Request
  pub id : ℕ
  pub phase : Phase

pub record Attempts : Type 0 where
  pub client : Client
  pub world : World
  pub attempts : List Attempt

-- A new attempt; the part of one behind its scan, which brought any networks or none; its end,
-- with any answer of iwd.
pub data ConnectStep : Attempts → Attempts → Type 0 where
  begins :
      (s : Attempts) (req : Request)
      → ConnectStep s (record s {
        client = (begin_connect s.client).0;
        attempts =
            record { request = req; id = (begin_connect s.client).1; phase = scanning }
            ∷ s.attempts;
      })
  prepares :
      (s : Attempts) (before : List Attempt) (a : Attempt) (behind : List Attempt) (now : ℕ)
      (nets : Option (List Network)) (path : String) (c : Client) (w : World)
      → s.attempts ≡ before ++ a ∷ behind
      → a.phase ≡ scanning
      → prepare_connect now a.request nets s.client s.world ≡ calling path c w
      → ConnectStep s (record {
        client = c;
        world = w;
        attempts = before ++ record a { phase = waiting path } ∷ behind;
      })
  refuses :
      (s : Attempts) (before : List Attempt) (a : Attempt) (behind : List Attempt) (now : ℕ)
      (nets : Option (List Network)) (scan_error : Option String) (e : String)
      → s.attempts ≡ before ++ a ∷ behind
      → a.phase ≡ scanning
      → connect_scanned now a.request (s.world, nets, scan_error) s.client ≡ refused e
      → ConnectStep s
          (record s { attempts = before ++ record a { phase = finished (some e) } ∷ behind })
  finishes :
      (s : Attempts) (before : List Attempt) (a : Attempt) (behind : List Attempt) (path : String)
      (err : Option String)
      → s.attempts ≡ before ++ a ∷ behind
      → a.phase ≡ waiting path
      → ConnectStep s (record {
        client = (finish_connect path a.id err s.client s.world).0;
        world = (finish_connect path a.id err s.client s.world).1;
        attempts = before ++ record a { phase = finished err } ∷ behind;
      })

pub data ConnectReach (s : Attempts) : Attempts → Type 0 where
  here : ConnectReach s s
  next : {t u : Attempts} → ConnectReach s t → ConnectStep t u → ConnectReach s u

abbrev pub IsFinished : Attempt → Type 0
IsFinished a = (err : Option String) × (a.phase ≡ finished err)

abbrev pub connecting_ssid_of : Attempts → String
connecting_ssid_of s = (state_of s.world).connecting_ssid

-- The id tells the attempts apart: only the newest clears the SSID of the one that is being
-- connected, and a late end of an older one leaves the whole state alone.
pub finish_connect_current :
    (path : String) (id : ℕ) (err : Option String) (c : Client) (w : World)
    → (((c.connect_id ≡ id)
          × (state_of (finish_connect path id err c w).1
              ≡ record (state_of w) { connecting_ssid = "" }))
        ⊎ ((c.connect_id ≢ id) × ((finish_connect path id err c w).1 ≡ w)))
      × ((finish_connect path id err c w).0.connect_id ≡ c.connect_id)
unfolding finish_connect modify
finish_connect_current path id err c w = ground arith

-- It comes as far as the call, if the network was found.
prepare_connect-calling :
    (now : ℕ) (req : Request) (nets : Option (List Network)) (c : Client) (w : World)
    (path security : String)
    → network_with req.ssid (nets_of nets) ≡ (path, security)
    → path ≢ ""
    → (c' : Client) × (w' : World) × (prepare_connect now req nets c w ≡ calling path c' w')
      × (c'.connect_id ≡ c.connect_id)
      × ((state_of w').connecting_ssid ≡ req.ssid)
unfolding prepare_connect
prepare_connect-calling now req nets c w path security e n = (
  client_calling now req path security c,
  world_calling req path c w,
  rw e (ground (arith, eq_iff path "")),
  ground arith,
  unfold modify in ground arith,
)

finish_same_id :
    (path : String) (id : ℕ) (err : Option String) (c : Client) (w : World)
    → c.connect_id ≡ id
    → (state_of (finish_connect path id err c w).1).connecting_ssid ≡ ""
finish_same_id path id err c w e = ground (arith, finish_connect_current path id err c w)

finish_other_id :
    (path : String) (id : ℕ) (err : Option String) (c : Client) (w : World)
    → c.connect_id ≢ id
    → (finish_connect path id err c w).1 ≡ w
finish_other_id path id err c w n = ground (arith, finish_connect_current path id err c w)

-- One attempt by itself, whose network was found, shows its SSID during the call, and none at
-- its end, whatever iwd answers.
connect_alone :
    (now : ℕ) (req : Request) (nets : Option (List Network)) (err : Option String) (c : Client)
    (w : World) (path security : String)
    → network_with req.ssid (nets_of nets) ≡ (path, security)
    → path ≢ ""
    → let (c1, id) = begin_connect c in
      (c2 : Client) × (w2 : World) × (prepare_connect now req nets c1 w ≡ calling path c2 w2)
      × ((state_of w2).connecting_ssid ≡ req.ssid)
      × ((state_of (finish_connect path id err c2 w2).1).connecting_ssid ≡ "")
unfolding begin_connect
connect_alone now req nets err c w path security e n =
    let (c1, id) = begin_connect c in
    let (c2, w2, calls, same_id, shown) =
      prepare_connect-calling now req nets c1 w path security e n in
    (c2, w2, calls, shown, finish_same_id path id err c2 w2 same_id)

ids-differ : (c : Client) → (begin_connect (begin_connect c).0).1 ≢ (begin_connect c).1
unfolding begin_connect
ids-differ c = λ e. absurd (omega arith)

-- Of two attempts whose networks are found, the older can come to its call behind the end of the
-- newer. Then it shows its SSID, and does not clear it at its end: both attempts are over, and
-- clients go on seeing the older one's network being connected.
pub connect_stuck :
    (c : Client) (w : World) (one two : Request) (nets nets' : Option (List Network))
    (path path' security security' : String) (now now' : ℕ) (err err' : Option String)
    → network_with one.ssid (nets_of nets) ≡ (path, security)
    → path ≢ ""
    → network_with two.ssid (nets_of nets') ≡ (path', security')
    → path' ≢ ""
    → (s : Attempts) × ConnectReach (record { client = c; world = w; attempts = [] }) s
      × All IsFinished s.attempts
      × (connecting_ssid_of s ≡ one.ssid)
unfolding begin_connect
connect_stuck c w one two nets nets' path path' security security' now now' err err' f n f' n' =
    let (c1, id1) = begin_connect c in
    let (c2, id2) = begin_connect c1 in
    let a1 : Attempt = record { request = one; id = id1; phase = scanning } in
    let a2 : Attempt = record { request = two; id = id2; phase = scanning } in
    let (c3, w3, calls2, same3, shown3) =
      prepare_connect-calling now' two nets' c2 w path' security' f' n' in
    let (c4, w4) = finish_connect path' id2 err' c3 w3 in
    let (c5, w5, calls1, same5, shown5) =
      prepare_connect-calling now one nets c4 w4 path security f n in
    let (c6, w6) = finish_connect path id1 err c5 w5 in
    let s2 : Attempts = record { client = c2; world = w; attempts = a2 ∷ a1 ∷ [] } in
    let s3 : Attempts = record {
      client = c3;
      world = w3;
      attempts = record a2 { phase = waiting path' } ∷ a1 ∷ [];
    } in
    let s4 : Attempts = record {
      client = c4;
      world = w4;
      attempts = record a2 { phase = finished err' } ∷ a1 ∷ [];
    } in
    let s5 : Attempts = record {
      client = c5;
      world = w5;
      attempts = record a2 { phase = finished err' } ∷ record a1 { phase = waiting path } ∷ [];
    } in
    let reach2 : ConnectReach (record { client = c; world = w; attempts = [] }) s2 =
      next (next here (begins _ one)) (begins _ two) in
    let reach5 : ConnectReach (record { client = c; world = w; attempts = [] }) s5 =
      next
        (next (next reach2 (prepares s2 [] a2 (a1 ∷ []) now' nets' path' c3 w3 refl refl calls2))
          (finishes s3 [] (record a2 { phase = waiting path' }) (a1 ∷ []) path' err' refl refl))
        (prepares s4 (record a2 { phase = finished err' } ∷ []) a1 [] now nets path c5 w5 refl refl
          calls1) in
    let stale : c5.connect_id ≢ id1 = λ e.
      ids-differ c
        (sym same3 ∙ sym (finish_connect_current path' id2 err' c3 w3).1 ∙ sym same5 ∙ e) in
    (
      record {
        client = c6;
        world = w6;
        attempts = record a2 { phase = finished err' } ∷ record a1 { phase = finished err } ∷ [];
      },
      next reach5 (
          finishes s5 (record a2 { phase = finished err' } ∷ [])
            (record a1 { phase = waiting path }) [] path err refl refl),
      ((err', refl), ((err, refl), tt)),
      ap (λ v. (state_of v).connecting_ssid) (finish_other_id path id1 err c5 w5 stale) ∙ shown5,
    )
