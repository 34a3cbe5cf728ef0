-- ===== src/Lib.antt =====
-- Verification of hostit: its control plane's decisions, the proxies' decision on private apps, and
-- the supervisor that runs inside an app's container.
--
-- hostit runs apps in containers on nodes. Control (control/) holds the registry of apps and users
-- (store/), answers the API, and commands the nodes; proxies (proxy/) forward visitors to apps by a
-- table that control pushes; an agent (agent/) in each container starts an app's command and restarts
-- it. The parts modelled here meet at the store's rows: control decides from them who a caller is and
-- what they may do, resolves them into the table of the proxies, and sends calls to the node that a
-- row names.
--
-- Store.antt: the rows, of store/types.go, with the columns that the code below reads.
-- Auth.antt: control/auth.go. `authenticate` is the method of that name, `authenticated` and
-- `require_active` to `require_admin` are the wrappers, each the outcome for one request. The token
-- table, the session cookies and the user table are the fields of `Services`.
-- Access.antt, Access/Proxy.antt, Access/Control.antt: private apps. `may_view_app` and the handlers
-- are those of control/appaccess.go; `access_set` and `active_admins` the queries of store/viewer.go;
-- `may_serve_privately` is the proxy's, in proxy/grant.go. The check of a grant's signature and the
-- parsing of URLs are parameters.
-- Retention.antt: control/retention/retention.go; Retention/Calendar.antt the names of its buckets.
-- App.antt: app/config.go, with `time.ParseDuration` a parameter.
-- Snapshots.antt: control/snapshotsched.go and the sweep of control/snapshot.go. Times are
-- nanoseconds since Go's zero time; the wrap-around of a doubled interval at 64 bits and the cap of a
-- difference of times are written out. A panic is `none`.
-- Agent.antt: the loop `Run` of agent/service.go as a step function over its events, with the
-- channels as flags, since each holds one value. `run` is any sequence of events.
-- Commands that survive SIGKILL are counted as strays; the best-effort writes of the state file are
-- taken to succeed.
-- Credentials.antt: control/session.go and proxy/grant/service.go. HMAC, Ed25519 and base64 are the
-- fields of `Signatures` and what they promise is `IsDocumented`; Credentials/Access.antt joins the
-- grant to what a proxy does with it.
-- Routes.antt: the routing table of control/proxies.go (`Routes` is `content` and `stamp`) and the
-- parts of proxy/service.go that keep it and decide by it (`ApplyRoutes`, `ServeHTTP`). The digest of
-- the content is a parameter. Routes/Overlap.antt interleaves the comparison and the store of
-- `ApplyRoutes`, which no lock holds together.
-- Mirror.antt: control/sync.go and node/machine_sync.go. `sync_state` is one step, as its lock makes
-- it; `sync` has the two steps of `Sync`, which Mirror/Races.antt interleaves. `run` and `deliver` are
-- sequences of builds at control and of arrivals at a node, each with whether the node's database
-- accepts its rows.
-- Apps.antt, Apps/Ports.antt, Apps/Create.antt, Apps/Rename.antt: control/manager.go,
-- control/rename.go and the ids of workspace/spec.go. A creation is a function of what each step
-- answers; the calls of the nodes are logged in order. The removal that undoes one may
-- fail as well, and a rename's way back is routed by the new name, as in the code.
-- Apps/SoftDelete.antt: control/softdelete.go. The sweep's loop takes the rows that were read and the
-- rows that there are.
-- Assistant.antt: assistant/session.go. A watcher's channel is its buffer; `act_all` is any sequence
-- of calls and of a watcher's reads.
-- Users.antt, Users/Tokens.antt: signing in, invitations, allowed domains and tokens of
-- control/user/service.go. Lower case, the patterns and the hash are parameters.
-- Connections.antt: control/connections.go, with control/connections/crypto.go and oauth.go and the
-- rows of store/connection.go. Connections/Sealing.antt is the sealing, with AES-GCM and base64 the
-- fields of `Cipher` and what they promise `IsCipher`; Connections/Custody.antt and
-- Connections/Serving.antt are the methods of `connectionManager`, with what a call meets in `World`;
-- Connections/Rotation.antt is `RotateKey`. `call_all` is any sequence of calls.
-- States.antt: control/state.go, the measurement of node/machine_state.go, `States` of
-- control/registry.go and `scopeStates` of cmd/control/servenode.go.
-- Files.antt: homefs/service.go. The paths are cleaned as path.Clean does it; Files/Writing.antt is
-- `WriteFileFrom`, Files/Extracting.antt `ExtractTar` and Files/Changing.antt `DeleteFile`, `MoveFile`
-- and `FileExists`, on a map from paths, where any step may fail. `act_all` is any sequence of calls.
-- Registry.antt: control/registry.go. An agent is a number, its identity; the registry's map is a
-- list with at most one entry for a node. `call` is every method of the fan-out agent that names an
-- app.
-- Limits.antt, Limits/Update.antt: the limits of control/user/service.go, control/service.go and
-- control/policy.go, and the endpoint of control/server_handler_limits.go with the ownership checks of
-- control/server_handler_apps.go. The sums of the pool check wrap around at 64 bits, as in the code; a
-- theorem about them says how large the limits may be. Settings are texts, by the `Itoa` and `Atoi` of
-- Common/Decimal.antt, which is where numbers are bounded by 2^63.
-- Common.antt and its children: the names that the others share, with lemmas on numbers and texts.
--
-- Two loops count down. That of `Itoa` starts at the number itself, which is at least its digits. The
-- search for a port, in Apps/Ports.antt, starts at the size of the range, as in the code. All other
-- loops are recursion on their lists.
--
-- Not modelled: SQL other than the queries named above, HTTP and JSON, processes, containers, symbolic
-- links and directories, the transport between control and nodes, the assistant's runs and tools, MCP
-- servers and the providers' side of a consent, the command line and the web pages.
--
-- In every part, Tests.antt has concrete runs.
pub mod Connections
pub mod Credentials
pub mod Common
pub mod Store
pub mod States
pub mod Files
pub mod Retention
pub mod App
pub mod Snapshots
pub mod Auth
pub mod Access
pub mod Agent
pub mod Registry
pub mod Mirror
pub mod Routes
pub mod Limits
pub mod Apps
pub mod Users
pub mod Assistant
