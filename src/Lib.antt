-- ===== src/Lib.antt =====
-- A model of the Neuralgentics broker, a Go library that runs MCP servers, routes the tool calls of
-- agents to them under a role-based access control, and audits every call. The Go packages are under
-- src/neuralgentics/broker; paths below are relative to it.
--
-- The parts and the files that model them:
--   * Types: types/types.go, the configurations and the conversion of a transport (`ToServerConfig`).
--     Types.Sharing has the map of a transport as a reference; elsewhere it is a value.
--   * Access: access/access.go, which role may use which server. A map is an association list in an
--     arbitrary order; what depends on the order is sorted, as in the code.
--   * Registry: registry/registry.go, the entries of the servers. `Get` returns a pointer there; here
--     an entry is reached by its name (`modify`). The order of its list is the order in which a call
--     ranges the map, so a theorem on one call holds for every order; the order of another call may
--     differ, which Prelude.Orders and Broker.Views.Orders have as a permutation.
--   * Catalog: catalog/catalog.go, the catalog shown to a role. Catalog.Curated: catalog/curated.go,
--     the servers that may be added. SkillCache: catalog/skill_cache.go, the bounded cache of file
--     bodies, whose list and map are one list, oldest first.
--   * Audit: audit/audit.go and audit/helpers.go; Audit.Sinks has also the flags of
--     cmd/broker/main.go (from the repository's root). A flush by the timer is an event.
--   * Skills: catalog/skills.go, the skills that a role is shown: Skills.FrontMatter reads the head of
--     a file, Skills.Tags merges tags with the scope file, Skills.Local and Skills.External go through
--     the directories, and Skills.Walk puts both together.
--   * Profile: profile/profile.go, the signed archive of a broker's configuration.
--   * Host: the surroundings. Processes, pipes, JSON-RPC answers and HTTP answers are functions of
--     the number of the question, so that every answer may differ from the last.
--   * Clients: the clients of proxy/proxy.go and proxy/http_client.go.
--   * Broker: broker.go, with launcher/launcher.go and the methods of proxy/proxy.go that it calls.
--     A method is an action on the broker's state; an error keeps the changes made before it.
--     Broker.Lifecycle starts, reloads and removes servers, Broker.Activation tries transports in
--     turn, Broker.Calls routes and audits calls, and Broker.Soundness runs these in any order.
--     Broker.Health checks the processes, Broker.Discovery adds servers from the curated catalog, and
--     Broker.Profiles writes the registry to a profile and restores it.
--   * Http: proxy/http_client.go, the requests of an HTTP client and what it makes of the answers. The
--     broker sees their outcome, in Host.
--   * Rpc: the requests of proxy/proxy.go that overlap: callers and readers as goroutines that take
--     turns. Rpc.Goroutines has their moves, Rpc.Invariant, Rpc.Callers, Rpc.Readers, Rpc.Beside
--     and Rpc.Lively what each keeps, and Rpc.Safety, Rpc.Endings, Rpc.Twice, Rpc.Calm and Rpc.Progress (with
--     Rpc.Advance) what follows for every run.
--   * Launcher: the goroutines of launcher/launcher.go, as a step relation: the watchers that `Start`
--     leaves, both halves of `Stop`, the ends of processes, and the changes of the registry, also those of
--     an activation over HTTP.
--   * Intent: intent/matcher.go, the choice of a tool for an intent. The tables of Unicode and the
--     arithmetic of float64 are arguments; a token is compared as bytes. Intent.Ranking has the sort.
--   * Broker.Views: the methods of broker.go that show what the broker holds, and how one is put together.
--     Broker.Exposure: the calls that broker.go passes on to a tool exposer, an interface.
--     Broker.Stable has what the methods keep of any property that is stable on the names they are about.
--     Catalog.Prompt: catalog/prompt.go, the text of a catalog. Demo: the rest of cmd/broker/main.go.
--   * Clients.Environment: the environment of a subprocess, in launcher/launcher.go and proxy/proxy.go.
--   * Errors: the errors of all parts, one constructor for each text. Prelude: what the parts share.
--   * Tests: the theorems at concrete inputs.
--
-- How they interact: the broker's state holds a registry, an access control, the HTTP clients, the
-- shared proxy and the audit writer. `Call` asks the access control first, then takes the HTTP
-- client of the server or else the proxy, and hands the audit writer one record. The catalog reads
-- the registry and the access control.
--
-- Bounds and fuel: all functions but two recurse on their data. The loop of an activation counts
-- its rounds down, one for each transport, as the code does, so the fuel is exact. The digits of a
-- number in the prompt get fuel for as many as its successor counts, which Catalog.Prompt.Decimal
-- shows to be enough. The cache's counters wrap at 2^64; other numbers are unbounded.
--
-- Not modelled: the methods of one broker run one after the other here, so races between them are out
-- of reach, but for the exit of a process, which is a step of its own; Rpc has the races inside the
-- proxy, and Launcher those of the launcher. A handle of an entry that was replaced while it was in
-- use is not followed, and a transport's map that several configurations hold only in Types.Sharing.
-- The adapter for stdio clients in proxy/proxy.go is left out, but for the environment of its
-- subprocess. Formatting of errors, JSON and SQL is left out. Files, archives, hashes, the parsers of
-- JSON and YAML and the exposer of tools are arguments.
mod Prelude
pub mod Rpc
pub mod Launcher
pub mod Demo
pub mod Http
pub mod Types
pub mod Errors
pub mod Registry
pub mod SkillCache
pub mod Audit
pub mod Host
pub mod Clients
pub mod Broker
pub mod Access
pub mod Catalog
pub mod Intent
pub mod Skills
pub mod Profile
mod Tests
