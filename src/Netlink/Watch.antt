-- ===== src/Netlink/Watch.antt =====
-- internal/netlink/watcher.go: `handleRawMessage` and the loop of `Run`.
use x_network.Base.{ℕ, true, false, List, [], ◌∷◌, ◌==◌, if◌then◌else◌, ◌≡◌, ◌≢◌, arith}
use x_network.Runtime.{World}
use x_network.Netlink.Kernel.{Kernel, Message, rtm_newlink, rtm_dellink, rtm_newaddr, rtm_deladdr}
use x_network.Netlink.Link.{Watcher, handle_link_message}
use x_network.Netlink.Address.{handle_address_message}
use x_network.Netlink.Fetch.{fetch_interfaces, fetch_addresses}

unfoldable pub handle_raw_message : ℕ → Kernel → Message → Watcher → World → Watcher × World
handle_raw_message now k msg watcher w =
    if msg.kind == rtm_newlink
    then handle_link_message k msg.payload false watcher w
    else (if msg.kind == rtm_dellink
        then handle_link_message k msg.payload true watcher w
        else (if msg.kind == rtm_newaddr
            then (watcher, handle_address_message now k msg.payload false w)
            else (if msg.kind == rtm_deladdr
                then (watcher, handle_address_message now k msg.payload true w)
                else (watcher, w))))

-- A message with the time and the kernel at which it is handled.
pub record Arrival : Type 0 where
  pub now : ℕ
  pub kernel : Kernel
  pub message : Message

unfoldable pub handle_all : List Arrival → Watcher → World → Watcher × World
handle_all [] watcher w = (watcher, w)
handle_all (a ∷ as') watcher w =
    let (watcher', w') = handle_raw_message a.now a.kernel a.message watcher w in
    handle_all as' watcher' w'

-- What a round of the loop meets: the stop channel is closed, or what Receive returns.
pub data Round : Type 0 where
  stopped : Round
  receive_error : Round
  received : List Arrival → Round

-- The rounds as far as the loop is watched; it returns at the first that finds the channel closed.
unfoldable pub watch : List Round → Watcher → World → Watcher × World
watch [] watcher w = (watcher, w)
watch (stopped ∷ rounds) watcher w = (watcher, w)
watch (receive_error ∷ rounds) watcher w = watch rounds watcher w
watch (received msgs ∷ rounds) watcher w =
    let (watcher', w') = handle_all msgs watcher w in watch rounds watcher' w'

-- `Run`: the two fetches, then the loop.
unfoldable pub run : Kernel → List Round → Watcher → World → Watcher × World
run k rounds watcher w = watch rounds watcher (fetch_addresses k (fetch_interfaces k w))

-- Messages of other kinds are ignored.
pub handle_raw_message_other :
    (now : ℕ) (k : Kernel) (msg : Message) (watcher : Watcher) (w : World)
    → msg.kind ≢ rtm_newlink
    → msg.kind ≢ rtm_dellink
    → msg.kind ≢ rtm_newaddr
    → handle_raw_message now k msg watcher w ≡ (watcher, w)
unfolding handle_raw_message handle_address_message
handle_raw_message_other now k msg watcher w a b c = ground arith
