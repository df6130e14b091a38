-- ===== src/Lib.antt =====
-- x-network: a daemon that keeps the network state of a Linux desktop and serves it on D-Bus.
--
-- The daemon is one Go program. Its parts share one state record behind a lock: the client of
-- the wireless daemon iwd, the watcher of the kernel's links and addresses, and the traffic
-- monitor change it by `Update`; the D-Bus service shows it to clients, and carries their
-- commands to iwd. Each part has its modules here.
--
--   internal/state/state.go        State: the record and its manager (State/Manager), the two
--                                  helpers at the end (State/Signal), `Update` between
--                                  goroutines, as steps (State/Delivery), and what all parts keep
--                                  true of the record (State/Coherent)
--   internal/iwd/agent.go          Iwd/Agent, and its history of calls (Iwd/Agent/History)
--   internal/iwd/client.go         Iwd/Client and Iwd/Client/Setup (finding the device, the
--                                  coming and going of iwd), Iwd/Networks, Iwd/Known, Iwd/Scan,
--                                  Iwd/Connect (with attempts beside one another in
--                                  Iwd/Connect/Attempts), Iwd/Station (signals), Iwd/Control
--                                  (device commands), Iwd/Config (`writeIWDConfig`), Portal
--                                  (`checkCaptivePortal`), and the client as steps (Iwd/Steps).
--                                  Their children are named for what they prove; those called
--                                  Coherent show that the part keeps the shared state coherent,
--                                  and those called Stable, in all parts, that it keeps what every
--                                  Update and every effect keeps (Runtime/Stable).
--   internal/netlink/watcher.go    Netlink: Kernel (questions to the kernel), Link, Address,
--                                  Fetch (the start), Watch (the loop of `Run`), Sockets. Kept
--                                  carries a property from the closures of the Updates to the
--                                  whole watcher, and Steps has each Update by itself.
--   internal/traffic/monitor.go    Traffic
--   internal/dbus/properties.go    Dbus/Properties
--   internal/dbus/service.go       Dbus/Service
--   internal/dbus/methods.go       Dbus/Methods, the goroutines they start in Dbus/Tasks, and both
--                                  as steps (Dbus/Steps)
--   internal/dbus/helpers.go       Dbus/Helpers
--   cmd/x-network/main.go          Daemon, and the running daemon as steps of all its parts
--                                  (Daemon/System); what holds of it is in Daemon/Served,
--                                  Daemon/Told, Daemon/Unclosed, Daemon/Shutdown, Daemon/Resume
--                                  and Daemon/Fallback
--
-- The state is the record `State`, with the fields of the source in its order. `World` (Runtime)
-- is the manager and a list of what was done outside, newest first: signals, calls, commands and
-- `go` statements. `modify` is an `Update`, followed by the change callback on a copy. A function
-- of the source that changes the state is a function from worlds to worlds, under its name in
-- this library's spelling; the body of a goroutine is a function of its own, run later. Where a
-- function waits, with no lock held, what others do meanwhile is an argument (`meanwhile`), or
-- the function is cut there into two. Type assertions that panic give `panic` (Base/Outcome),
-- since nothing recovers; errors are `Option String`, `none` for success.
--
-- `DaemonStep` (Daemon/System) puts the parts beside one another. A step is a piece of a goroutine
-- that ends with its Update, with whatever iwd, the kernel, the clients and the clock bring. What
-- was fetched at an earlier moment is any such thing, so that there are steps for the pieces as
-- well as for a handler that runs through. The calls that a method makes before its one Update
-- change no state, and count as part of its step. The client can be initialized by the main
-- goroutine in `NewClient` and by the loop of iwd's coming and going that this has started before,
-- with no lock: each assignment and each Update of both is a step, and so is an attempt that runs
-- through. A service that does not start ends the program at once.
--
-- A signal or an announcement in the list of effects is an attempt: whether the bus takes it is
-- only logged, and no later behaviour depends on it.
--
-- What is not the repository's is a parameter: iwd's answers (`Bus`, of one moment; a function
-- that asks twice takes two), the kernel with its decoders of messages (`Kernel`), the files
-- under /sys/class/net (`Sysfs`), HTTP (`Web`), commands (`Shell`), and the bus at the service's
-- start (`Registration`). No law is asked of them, except that iwd keeps to the documented types
-- of its properties where a theorem says that nothing panics.
--
-- Numbers: uint64 counters wrap at 2 ^ 64, which `delta` and `begin_connect` write out; the
-- percentage is cut to uint8; int16 and smaller values are kept as they come. Times are
-- nanoseconds on the monotonic clock. Recursion is on lists. Fuel occurs only in `decimal`, the
-- printing of a counter in Traffic/Counter: a number below the fuel has fewer digits than that,
-- and its theorem gives `suc n` for n. Go maps are lists of entries in the order in which they
-- are walked, which Go leaves open: what holds of every list holds of every order.
--
-- Not modelled: logging, the command line and the signals of the process; sleeping and the times
-- of the ticker, of which only the moments before and after are seen; how connections are opened,
-- beyond their errors; simultaneous access beyond the steps of State/Delivery,
-- Iwd/Connect/Attempts and Daemon/System; the shell scripts and the configuration files. Fixtures and the Examples modules hold data and the theorems at concrete inputs.
pub mod Base
pub mod Fixtures
pub mod State
pub mod Variant
pub mod Runtime
pub mod Sysfs
pub mod Portal
pub mod Iwd
pub mod Traffic
pub mod Netlink
pub mod Dbus
pub mod Daemon
