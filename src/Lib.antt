-- ===== src/Lib.antt =====
-- Portato keeps SSH port forwards ("tubers") up: a configuration names them, an engine runs one state
-- machine for each, and a terminal interface or a daemon shows and switches them. This library models
-- the core of the program and proves what makes it correct.
--
-- The parts and their files:
--
-- Prelude: Boolean tests, lists, Go strings as lists of code points with the functions of `strings`
-- that the program uses, maps as association lists, integers and decimal numbers.
--
-- Forward.Tuber (internal/forward/tuber.go): the fields of a tuber, and each method as the change that
-- it makes under the mutex. Stop is two moments: what it does under the mutex, and the later call of
-- the cancel function, which is an event of its own. Forward.Tuber.Loop has the run loops (run,
-- runRemote) as steps: a place in the code, and what the environment answers there (a dial, a listen
-- on the server, the clock, a timer). Forward.Tuber.System puts a tuber and all loops ever started
-- together; a list of events is any interleaving of the calls and the loops, and `run` follows it. The
-- contexts of the loops derive from one base context, which the daemon's Shutdown cancels; that is an
-- event too.
-- Shutdown, Retry, StopInDial, Pending, Invariant and Ownership hold the results.
--
-- Forward.Backoff and Forward.State (internal/forward/backoff.go, state.go): the reconnect delay with
-- the 64-bit shift of the code, the states and their names, and a tuber's snapshot.
--
-- Forward.Engine (internal/forward/engine.go): the engine over any implementation of the interface
-- `tuberer`, the record Forward.Tuberer, whose laws Forward.Instance proves of the tubers above.
-- Engine.Starts, Engine.Reloading and Engine.Broker have the starts, Reload and the subscriptions.
-- Go does not say in which order a range over a map goes; here it is the order of the entries, and the
-- results speak of each name by itself. A call on a tuber takes what the network answers it.
--
-- Config (internal/config): Types has the data and its comparisons, Addr the addresses, Ports the free
-- ports (ports.go), Names and Validate the validation, Ssh the ssh targets and jump chains, Prepare the
-- resolution against the user's ssh configuration, and Patch the edits in memory (patch.go). What
-- the third-party reader of ssh configurations answers, the user's name and the home directory are
-- fields of Prepare.Env. An error is a constructor for each message. Resolved has what a tuber takes
-- from the defaults.
--
-- Config.Document (internal/config/patch.go, and Load of config.go): the edits of the YAML document of
-- the configuration file. A node has the kind, tag, value and content that the code uses. A write
-- through a pointer into the document is a write at the path to it. Document.Edited is the edit of a
-- list of named entries, which both kinds of edit are compared with; Entries, Writes, Refines and
-- Reloads go from the nodes to the list, and from the list to the configuration that the file loads
-- as. What the third-party yaml makes of one entry is the record Loaded.Yaml.
--
-- Secret (internal/secret/secret.go): the store of passphrases and passwords. What runs under its mutex
-- is a step, and a list of steps is any order in which the goroutines take the mutex. The keyring is
-- the record Store.Backend, which Secret.Memory fills with the backend in memory.
--
-- Forward.DialErrors, Forward.Password and Forward.Passphrase (internal/forward/ssh.go, password.go,
-- passphrase.go): the wording of a dial's error, and the loops that ask for a password or a passphrase.
-- The provider is the record Password.Provider, which Password.Stores fills with the store above; the
-- dial and the parsing of a key are answers of the environment, one record for each round. What other
-- goroutines do to the store between the deletion of a rejected password and the next read is an
-- argument of that filling. Forward.Dial
-- (ssh.go) goes into the dial: the chain of jumps with what it closes, the check of a host key, and the
-- methods of the keys. There the answer of each hop is an argument. Forward.KnownHosts (knownhosts.go)
-- is the load that skips malformed lines, over any parser of known_hosts files; Recovers shows that it
-- loads. Forward.HostKeyAlgos (ssh.go) has the host key algorithms that known_hosts lists for a host, and
-- Forward.Probe (probe.go) the probe of a server and its outcomes.
--
-- Controller (internal/controller/local.go) and Daemon.Server (internal/daemon/server.go): the standalone
-- controller and the handlers of the daemon, over the engine, the configuration in memory, the
-- document of its file, the stores and the known-hosts file. Controller.State has the steps that both
-- take. What the outside answers to a request (yaml, the network, errors of files) is the record World.
--
-- Daemon.Watcher (internal/daemon/watcher.go) is the poll of the configuration file with its debouncing:
-- a history of polls, each with what stat answers and the time. A reload is one that is tried, whether
-- the file loads or not. Daemon.UpdateCheck
-- (internal/daemon/updatecheck.go, internal/update/cache.go) is the poll for a new release.
--
-- Tui.Editor (internal/tui/editor.go): the form that edits a tuber. The third-party text input is the
-- record Input, which is made with the limit of 256 characters; Editor.Update has the messages, the validation and the save, whose controller answers
-- are arguments.
--
-- Importer.Plan (internal/importer/plan.go): what an import from an ssh configuration adds and skips.
-- Importer.Scan (internal/importer/importer.go): the walk of an ssh configuration and its included
-- files for forwards. A file is the list of blocks that the third-party reader makes of it.
--
-- Log.Ring (internal/log/ring.go): the bounded ring of log entries and the handler that fills it.
--
-- Update.Version (internal/update/version.go): versions, with 64-bit subtraction written out.
--
-- Fuel: `next_free` takes as many rounds as there are used ports, since each round passes one of them,
-- `next_name` as many as there are taken names, for the same reason, and `itoa` one more than the
-- number, since each round drops a digit. `walk_config` counts the include depth that is left, from
-- maxIncludeDepth (5) on, as the code counts it up to there. The rounds of Forward.KnownHosts are one
-- more than the lines, as in the code; each skips a line. All other loops go down a list; the prompting
-- loops go down the list of rounds that have been answered, and are still waiting at its end.
-- The run loops of a tuber go on for ever by design: a step is one move, and sequences of steps are
-- lists.
--
-- Not modelled: the data path of a forward (accepting, SOCKS5, copying of bytes), the connections and
-- handshakes of the third-party ssh package, the bytes of YAML files, the daemon's event stream, its
-- start and its stop, the screens of the terminal interface, the commands, the services of the
-- operating systems, updates beyond versions and the check cache. A byte length of a string is only
-- taken where the string is known to be of name characters, or is the content of a known_hosts file,
-- which is its bytes. Aliases of YAML are not resolved. A controller or the daemon shares its
-- configuration with its engine by a pointer; here each has its copy, and setEnabled writes to both.
-- Mutexes are taken for granted: what a method does between locking and unlocking is one step.
pub mod Prelude
pub mod Config
pub mod Update
pub mod Forward
pub mod Log
pub mod Importer
pub mod Secret
pub mod Controller
pub mod Daemon
pub mod Tui
