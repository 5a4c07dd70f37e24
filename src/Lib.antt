-- ===== src/Lib.antt =====
-- A verification library of talos-mcp-server, the MCP server that lets an agent operate Talos Linux nodes.
--
-- The program: `cmd/talos-mcp` reads the environment, builds a Talos client and a `Handlers` value, and
-- registers the tools of `internal/tools`. A tool call reaches one handler, which checks its arguments
-- against the operator's policy (confirmation, node allowlist, config path blocklist, maintenance-mode
-- gates, upgrade path) and only then calls the Talos API. The library models this policy code, the
-- handlers of the tools, which tools a server offers, the resources and completions, the version cache of
-- the client, and the middleware of the HTTP transport.
--
-- Which file models which part:
--   Version           internal/version/version.go: tags, their order, and the upgrade rules
--   Nodes             internal/talos/nodes.go and `WithNodes` of client.go: the node allowlist
--   Insecure          internal/talos/insecure.go (CanonicalIP, ParseFingerprint) and
--                     internal/config/insecure.go (CheckInsecureAllowlist)
--   Blocklist         internal/tools/patch_blocklist.go: the config path guard
--   Tools.Effect      the parts of internal/tools/helpers.go that every handler uses: audit trail,
--                     outcomes, locks and dialling
--   Tools.Lifecycle   the handlers of internal/tools/lifecycle.go for services, upgrade, rollback, reset;
--                     Tools.Lifecycle.Reboot has the one for reboots and its wait
--   Tools.Queries     internal/tools/resources.go, and the queries of internal/tools/system.go
--   Tools.Health      `HandleHealth` of system.go, `HandleEvents` of logs.go, and validate.go
--   Tools.Logs        `HandleLogs` and `HandleDmesg` of internal/tools/logs.go
--   Tools.Files       internal/tools/files.go: the path allowlist, listings and reads
--   Tools.SecretFile  internal/tools/secret_file.go
--   Tools.Etcd        internal/tools/etcd.go and etcd_preflight.go
--   Tools.ConfigFile  `readConfigFile` of the same file
--   Tools.Config      its handlers for config patches and replacements, with
--                     `canonicalizeAndCheckInsecure` of helpers.go
--   Resources         internal/resources/cosi.go and static.go: what a client reads by URI
--   Completions       internal/completions, with `NodeAllowlist.Exact` in Nodes.Exact
--   Startup           the start of cmd/talos-mcp/main.go: from the environment to the handlers' configuration
--   Register          internal/tools/register.go: the tools of a server; Register.Calls is a call by name
--   Http              cmd/talos-mcp/middleware.go, and the mux and the verifier of main.go
--   VersionCache      the version cache of internal/talos/client.go
--   MetaKey           `parseMetaKey` of internal/tools/meta.go and `ParseMetaPrivilegedKeys` of
--                     internal/config/insecure.go
--   Tools.Meta        the handler of internal/tools/meta.go
--   Subscriptions     internal/subscriptions/manager.go: the tables of the manager and what a watcher
--                     forwards
--   CosiUri           `ParseCOSIURI` of internal/resources/resources.go
--   Safety            internal/config/safety_profile.go: presets and overrides
--   Text, Net, Common Go's text functions, the address operations of the package net, shared helpers
--
-- How the model corresponds to the code:
--   * Text is the list of its bytes. A Go pair of a value and an error is a `Result`. Error messages are
--     values of an error type with the data that the message prints.
--   * A handler is a function from the history of events to its result and the longer history
--     (`Tools.Effect.M`). Events are what it does besides returning: audit records, log forwards,
--     progress, locks, dials and the calls of the Talos API. What the API and the network answer is a
--     parameter (`Env`) that may depend on the whole history, so a theorem about a handler holds
--     whatever the nodes answer. The local files (`Disk`) are a parameter too, fixed for one call.
--   * `Net` is the notation of addresses of Go's package net (ParseIP, IP.String, ParseCIDR): a
--     parameter, with the laws that the code relies on as fields. `Net.Sample` is an instance that meets
--     them. Masks, containment and the address classes are modelled byte by byte.
--   * `Decoder` is the JSON and YAML decoding of a patch, and `Env.load_patch` and `Env.apply_patch` are
--     the Talos machinery's configpatcher. They are parameters without laws.
--   * The wait for a reboot probes the nodes in loops of at most `rounds` probes: two more than the
--     timeout has whole pauses, which is enough if a context with a timeout has ended once that time has
--     been paused (`Timely`). What Go's clock answers is a parameter (`Clock`), which may depend on the
--     whole history, since probes take time as well. The waits of several nodes, which are goroutines
--     that share nothing but the channel of their outcomes, run one behind the other, and the order in
--     which the outcomes arrive is a parameter.
--   * The goroutines that use the version cache take their steps in any order (`VersionCache.run`), each
--     at an operation on its mutex or an answer of the API. Requests to the HTTP transport overlap as any
--     sequence of arrivals and endings (`Http.run`); the packages behind the middleware (rate limiter,
--     semaphore, mux, bearer check) are the interface `Http.Stack` with the laws that they document.
--   * Streams and readers of the API are the lists of what they send and how they end (`Tools.Stream`).
--     What can be allocated for the buffer of kernel messages, and what the operating system refuses
--     when files are written or removed, are parameters.
--   * The path allowlist and the blocklist are about texts: a node resolves a path with its own links, and
--     configpatcher reads a patch by its own rules.
--   * Numbers read from text are bounded by Go's int (`Text.Number.max_int`). Besides the wait, only
--     `decimal` needs fuel: one more than the number, which has at most that many digits.
--   * The text of progress notes is fixed in the model, without the dry-run variants of the source, and
--     invalid UTF-8 is passed on by byte, where Go's strings.Map and ToLower replace it.
--
-- Not modelled: the prompts, which print fixed text, JSON schemas and descriptions, the construction of
-- the gRPC client, and the listener of the HTTP transport with the reading of its limits.
-- Their parts are listed with the reason in the project's manifest.
pub mod Blocklist
pub mod Common
pub mod Completions
pub mod CosiUri
pub mod Http
pub mod Insecure
pub mod MetaKey
pub mod Net
pub mod Nodes
pub mod Register
pub mod Resources
pub mod Safety
pub mod Startup
pub mod Subscriptions
pub mod Text
pub mod Tools
pub mod Version
pub mod VersionCache
