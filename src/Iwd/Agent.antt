-- ===== src/Iwd/Agent.antt =====
-- internal/iwd/agent.go: passwords that wait for iwd to ask. Times are nanoseconds on the
-- monotonic clock; the lock makes each method one step.
pub mod History
use x_network.Base.{
  ℕ, ◌+◌, ◌-◌, ◌*◌, String, List, [], Option, none, some, lookup, insert, delete, ltb,
  if◌then◌else◌,
}
use x_network.Variant.{DbusError, Reply, returns, fails}

abbrev pub agent_path : String
agent_path = "/org/xshell/network/agent"

abbrev pub canceled_error : String
canceled_error = "net.connman.iwd.Agent.Error.Canceled"

-- 30 seconds.
abbrev pub credential_ttl : ℕ
credential_ttl = 30_000_000_000

pub record PendingCredential : Type 0 where
  pub password : String
  pub created : ℕ

pub record Agent : Type 0 where
  pub pending : List (String × PendingCredential)

abbrev pub new_agent : Agent
new_agent = record { pending = [] }

unfoldable pub set_pending : ℕ → String → String → Agent → Agent
set_pending now network password a = record {
  pending = insert network (record { password = password; created = now }) a.pending;
}

unfoldable pub clear_pending : String → Agent → Agent
clear_pending network a = record { pending = delete network a.pending }

abbrev pub canceled : {A : Type 0} → String → Reply A
canceled why = fails (record { name = canceled_error; message = why })

-- The age is 0 if the clock has not moved on; it does not go back.
answer : ℕ → String → Option PendingCredential → Agent → Agent × Reply String
unfolding clear_pending
answer now network none a = (a, canceled "No credential available")
answer now network (some cred) a =
    if ltb credential_ttl (now - cred.created)
    then (clear_pending network a, canceled "Credential expired")
    else (clear_pending network a, returns cred.password)

unfoldable pub request_passphrase : ℕ → String → Agent → Agent × Reply String
unfolding answer
request_passphrase now network a = answer now network (lookup network a.pending) a

unfoldable pub request_private_key_passphrase : String → Agent → Agent × Reply String
request_private_key_passphrase network a = (a, canceled "Private key passphrase not supported")

unfoldable pub request_user_name_and_password : String → Agent → Agent × Reply (String × String)
request_user_name_and_password network a =
    (a, canceled "User/password authentication not supported")

unfoldable pub request_user_password : String → String → Agent → Agent × Reply String
request_user_password network user a = (a, canceled "User password authentication not supported")

unfoldable pub cancel : String → Agent → Agent
cancel reason a = record { pending = [] }

unfoldable pub release : Agent → Agent
release a = record { pending = [] }
