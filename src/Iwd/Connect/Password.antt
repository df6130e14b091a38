-- ===== src/Iwd/Connect/Password.antt =====
-- internal/iwd/client.go and agent.go together: the way of a password from `Connect` to iwd.
use x_network.Base.{
  ◌⊎◌, inr, ℕ, ◌-◌, ◌≤◌, ◌≡◌, refl, ap, sym, ◌∙◌, ◌≢◌, String, Bool, true, false, List, Option,
  none, some, lookup-insert, if◌then◌else◌, arith, eq_refl, eq_iff,
}
use x_network.Variant.{Reply, returns}
use x_network.State.{Network}
use x_network.Runtime.{World}
use x_network.Iwd.Agent.{Agent, credential_ttl, set_pending, request_passphrase}
use x_network.Iwd.Client.{Client}
use x_network.Iwd.Connect.{
  Request, calling, prepare_connect, prepared, network_with, nets_of, wants_pending, client_calling,
  with_pending,
}

-- The answer that iwd gets from the client's agent, if it has one.
abbrev pub answer_of : ℕ → String → Option Agent → Option (Reply String)
answer_of now path none = none
answer_of now path (some agent) = some (request_passphrase now path agent).1

request-set_pending :
    (now later : ℕ) (path password : String) (a : Agent)
    → later - now ≤ credential_ttl
    → (request_passphrase later path (set_pending now path password a)).1 ≡ returns password
unfolding request_passphrase set_pending
request-set_pending now later path password a young =
    rw lookup-insert (rw (eq_refl path) (ground arith))

prepared-client :
    (now : ℕ) (req : Request) (path security path' : String) (c c' : Client) (w w' : World)
    → prepared now req (path, security) c w ≡ calling path' c' w'
    → c' ≡ client_calling now req path security c
unfolding prepared
prepared-client now req path security path' c c' w w' e = ground arith

client_calling-of :
    (now : ℕ) (req : Request) (nets : Option (List Network)) (path security path' : String)
    (c c' : Client) (w w' : World)
    → network_with req.ssid (nets_of nets) ≡ (path, security)
    → prepare_connect now req nets c w ≡ calling path' c' w'
    → c' ≡ client_calling now req path security c
unfolding prepare_connect
client_calling-of now req nets path security path' c c' w w' found calls =
    prepared-client now req path security path' c c' w w'
      (sym (ap (λ n. prepared now req n c w) found) ∙ calls)

answer-client_calling :
    (now later : ℕ) (req : Request) (path security : String) (c : Client) (a : Agent)
    → c.agent ≡ some a
    → wants_pending req security ≡ true
    → later - now ≤ credential_ttl
    → answer_of later path (client_calling now req path security c).agent
      ≡ some (returns req.password)
answer-client_calling now later req path security c a has_agent wants young = rw wants (
    ap (λ o. answer_of later path (with_pending now path req.password o)) has_agent
    ∙ ap some (request-set_pending now later path req.password a young))

request-other_path :
    (now later : ℕ) (kept path password : String) (a : Agent)
    → kept ≢ path
    → (request_passphrase later path (set_pending now kept password a)).1
      ≡ (request_passphrase later path a).1
unfolding request_passphrase set_pending
request-other_path now later kept path password a n = ground (
  arith,
  lookup-insert kept path (record { password = password; created = now }) a.pending,
  eq_iff kept path,
)

answer-other_path :
    (now later : ℕ) (kept path password : String) (o : Option Agent)
    → kept ≢ path
    → answer_of later path (with_pending now kept password o) ≡ answer_of later path o
answer-other_path now later kept path password none n = refl
answer-other_path now later kept path password (some a) n =
    ap some (request-other_path now later kept path password a n)

answer-calling_other :
    (b : Bool) (now later : ℕ) (kept path password : String) (c : Client)
    → kept ≢ path
    → answer_of later path
        (if b then record c { agent = with_pending now kept password c.agent } else c).agent
      ≡ answer_of later path c.agent
answer-calling_other true now later kept path password c n =
    answer-other_path now later kept path password c.agent n
answer-calling_other false now later kept path password c n = refl

-- The network is of a kind for which Connect keeps the password: of one of three kinds by the
-- scan, or a personal one by the client's request.
abbrev pub IsKept : Request → String → Type 0
IsKept req security =
    (security ≡ "psk") ⊎ (security ≡ "wpa2") ⊎ (security ≡ "wpa3") ⊎ (req.security ≡ "psk")

IsKept-wants_pending :
    (req : Request) (security : String)
    → req.password ≢ ""
    → IsKept req security
    → wants_pending req security ≡ true
IsKept-wants_pending req security given kept = ground (
  arith,
  eq_iff req.password "",
  eq_iff security "psk",
  eq_iff security "wpa2",
  eq_iff security "wpa3",
  eq_iff req.security "psk",
)

-- When iwd asks for the password of the network that is being connected, at most 30 s after
-- Connect has prepared the call, it gets the one that Connect was given: if the client has an
-- agent, the password is not empty, and the scan shows the network as "psk", "wpa2" or "wpa3" or
-- the request says "psk".
pub connect_password :
    (now later : ℕ) (req : Request) (nets : Option (List Network)) (c : Client) (w : World)
    (a : Agent) (path security : String) (c' : Client) (w' : World)
    → c.agent ≡ some a
    → network_with req.ssid (nets_of nets) ≡ (path, security)
    → req.password ≢ ""
    → IsKept req security
    → prepare_connect now req nets c w ≡ calling path c' w'
    → later - now ≤ credential_ttl
    → answer_of later path c'.agent ≡ some (returns req.password)
connect_password now later req nets c w a path security c' w' has_agent found given kept calls
      young =
    ap (λ (d : Client). answer_of later path d.agent)
      (client_calling-of now req nets path security path c c' w w' found calls)
    ∙ answer-client_calling now later req path security c a has_agent
        (IsKept-wants_pending req security given kept) young

-- A hidden network that the scan does not show has the empty path: its password is kept under
-- that, and would be told there for 30 s; for every other path that iwd asks for, the answer is
-- the one from before. This is for a client with an agent, a password that is not empty and a
-- request that says "psk".
pub connect_hidden :
    (now later : ℕ) (req : Request) (nets : Option (List Network)) (c : Client) (w : World)
    (a : Agent) (path security : String) (c' : Client) (w' : World)
    → c.agent ≡ some a
    → network_with req.ssid (nets_of nets) ≡ ("", security)
    → req.password ≢ ""
    → req.security ≡ "psk"
    → prepare_connect now req nets c w ≡ calling "" c' w'
    → later - now ≤ credential_ttl
    → path ≢ ""
    → (answer_of later "" c'.agent ≡ some (returns req.password))
      × (answer_of later path c'.agent ≡ answer_of later path c.agent)
connect_hidden now later req nets c w a path security c' w' has_agent found given psk calls young
      n =
    (
      connect_password now later req nets c w a "" security c' w' has_agent found given
          (inr (inr (inr psk))) calls young,
      ap (λ (d : Client). answer_of later path d.agent)
            (client_calling-of now req nets "" security "" c c' w w' found calls)
          ∙ answer-calling_other (wants_pending req security) now later "" path req.password c
              (λ e. n (sym e)),
    )
