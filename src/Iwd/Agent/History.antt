-- ===== src/Iwd/Agent/History.antt =====
-- internal/iwd/agent.go against its history: what the agent answers is a function of the calls
-- that were made to it, with no table of credentials.
use mathlib.Core.List.{Memᴰ}
use x_network.Base.{
  ℕ, ◌-◌, ◌≤◌, ◌≡◌, refl, String, List, [], ◌∷◌, ◌++◌, Option, none, some, lookup, lookup-insert,
  lookup-delete, ltb, ◌=s=◌, if◌then◌else◌, eq_iff, eq_refl, arith, Bool-cases, All, inl, inr, ◌≢◌,
}
use x_network.Variant.{Reply, returns}
use x_network.Iwd.Agent.{
  Agent, PendingCredential, new_agent, set_pending, clear_pending, canceled, credential_ttl,
  request_passphrase, cancel, release,
}

-- The calls that change the agent.
pub data AgentCall : Type 0 where
  sets : (network password : String) → AgentCall
  clears : (network : String) → AgentCall
  asks : (network : String) → AgentCall
  cancels : (reason : String) → AgentCall
  releases : AgentCall

-- The agent after a call at a time.
unfoldable pub after_call : ℕ → AgentCall → Agent → Agent
after_call now (sets network password) a = set_pending now network password a
after_call now (clears network) a = clear_pending network a
after_call now (asks network) a = (request_passphrase now network a).0
after_call now (cancels reason) a = cancel reason a
after_call now releases a = release a

-- A history is newest first, with the time of each call.
unfoldable pub agent_after : List (ℕ × AgentCall) → Agent
unfolding after_call
agent_after [] = new_agent
agent_after ((now, c) ∷ h) = after_call now c (agent_after h)

-- The newest call that concerns a network decides: a password is held if that call set it.
unfoldable pub held : String → List (ℕ × AgentCall) → Option PendingCredential
held network [] = none
held network ((t, sets n p) ∷ h) =
    if n =s= network then some (record { password = p; created = t }) else held network h
held network ((t, clears n) ∷ h) = if n =s= network then none else held network h
held network ((t, asks n) ∷ h) = if n =s= network then none else held network h
held network ((t, cancels r) ∷ h) = none
held network ((t, releases) ∷ h) = none

pending-request_passphrase :
    (now : ℕ) (n k : String) (a : Agent)
    → lookup k (request_passphrase now n a).0.pending
      ≡ (if n =s= k then none else lookup k a.pending)
unfolding request_passphrase
pending-request_passphrase now n k a = ground (arith, lookup-delete n k a.pending, eq_iff n k)

-- The table refines the history: it holds what the newest call on a network left.
pub pending-held :
    (network : String) (h : List (ℕ × AgentCall))
    → lookup network (agent_after h).pending ≡ held network h
unfolding agent_after held set_pending clear_pending cancel release lookup
pending-held network [] = refl
pending-held network ((t, sets n p) ∷ h) = rw (lookup-insert, pending-held network h)
pending-held network ((t, clears n) ∷ h) = rw (lookup-delete, pending-held network h)
pending-held network ((t, asks n) ∷ h) = rw (pending-request_passphrase, pending-held network h)
pending-held network ((t, cancels r) ∷ h) = refl
pending-held network ((t, releases) ∷ h) = refl

-- What the newest call on a network left, answered at a time.
abbrev pub expected : ℕ → Option PendingCredential → Reply String
expected now none = canceled "No credential available"
expected now (some cred) =
    if ltb credential_ttl (now - cred.created)
    then canceled "Credential expired"
    else returns cred.password

-- After any calls at all, a request is answered from the newest call that concerns its network:
-- with the password if that call set one at most 30 s before, with "Credential expired" if it
-- set one longer ago, and with "No credential available" if it set none.
pub request_passphrase-held :
    (now : ℕ) (network : String) (h : List (ℕ × AgentCall))
    → (request_passphrase now network (agent_after h)).1 ≡ expected now (held network h)
unfolding request_passphrase
request_passphrase-held now network h = ground (arith, pending-held network h)

-- The call does not set a password for the network.
abbrev pub SetsNot : String → AgentCall → Type 0
SetsNot network (sets n p) = n ≢ network
SetsNot network _ = Unit

held-after_ask :
    (network : String) (t : ℕ) (h later : List (ℕ × AgentCall))
    → All (λ c. SetsNot network c.1) later
    → held network (later ++ (t, asks network) ∷ h) ≡ none
unfolding held
held-after_ask network t h [] none_set = rw (eq_refl network)
held-after_ask network t h ((u, sets n p) ∷ later) (not, none_set) =
    ground (arith, eq_iff n network, held-after_ask network t h later none_set)
held-after_ask network t h ((u, clears n) ∷ later) (not, none_set) =
    ground (arith, held-after_ask network t h later none_set)
held-after_ask network t h ((u, asks n) ∷ later) (not, none_set) =
    ground (arith, held-after_ask network t h later none_set)
held-after_ask network t h ((u, cancels r) ∷ later) (not, none_set) = refl
held-after_ask network t h ((u, releases) ∷ later) (not, none_set) = refl

-- A password goes out once: a second request for a network is refused, whatever calls lie
-- between, unless one of them sets a password for it.
pub request_passphrase_once :
    (now t : ℕ) (network : String) (h later : List (ℕ × AgentCall))
    → All (λ c. SetsNot network c.1) later
    → (request_passphrase now network (agent_after (later ++ (t, asks network) ∷ h))).1
      ≡ canceled "No credential available"
request_passphrase_once now t network h later none_set =
    rw (request_passphrase-held, held-after_ask network t h later none_set)

held-sets :
    (network : String) (h : List (ℕ × AgentCall)) (cred : PendingCredential)
    → held network h ≡ some cred
    → Memᴰ (cred.created, sets network cred.password) h
unfolding held
held-sets network [] cred e = cc
held-sets network ((t, sets n p) ∷ h) cred e = elim (Bool-cases (n =s= network)) [
  | inl same ↦ Memᴰ.head (ground (arith, eq_iff n network))
  | inr other ↦ Memᴰ.tail (held-sets network h cred (rw other at e))
]
held-sets network ((t, clears n) ∷ h) cred e = elim (Bool-cases (n =s= network)) [
  | inl same ↦ absurd (ground arith)
  | inr other ↦ Memᴰ.tail (held-sets network h cred (rw other at e))
]
held-sets network ((t, asks n) ∷ h) cred e = elim (Bool-cases (n =s= network)) [
  | inl same ↦ absurd (ground arith)
  | inr other ↦ Memᴰ.tail (held-sets network h cred (rw other at e))
]
held-sets network ((t, cancels r) ∷ h) cred e = cc
held-sets network ((t, releases) ∷ h) cred e = cc

expected-returns :
    (now : ℕ) (o : Option PendingCredential) (password : String)
    → expected now o ≡ returns password
    → (cred : PendingCredential) × (o ≡ some cred)
      × (cred.password ≡ password)
      × (now - cred.created ≤ credential_ttl)
expected-returns now none password e = cc
expected-returns now (some cred) password e = (cred, refl, ground arith, ground arith)

-- Whatever password is given out was set for that very network, at most 30 s before.
pub request_passphrase-returns :
    (now : ℕ) (network password : String) (h : List (ℕ × AgentCall))
    → (request_passphrase now network (agent_after h)).1 ≡ returns password
    → (t : ℕ) × Memᴰ (t, sets network password) h × (now - t ≤ credential_ttl)
request_passphrase-returns now network password h e =
    let (cred, is_held, same, young) =
      expected-returns now (held network h) password (rw request_passphrase-held at e) in
    (cred.created, rw same at (held-sets network h cred is_held), young)
