-- ===== src/Lib.antt =====
-- home-stack: a registry of household services, and the Go program that turns it into a Caddyfile and
-- launchd property lists, serves an admin interface over it, and watches the services.
--
-- The parts, and where they are modelled (paths from the repository's root):
--   * Registry: portable/home-stack/admin/engine.go, the types Service and Registry and the methods
--     that only look at one entry (IsEnabled, ResolvedHost, RoutableHost, RoutableURL, StartInterval).
--   * Validate: engine.go, Registry.Validate and the checks it calls, in their order, with a
--     constructor of an error for each message. Validity says declaratively what a valid registry is.
--   * Edits: registry.go, AddService and RemoveService, with engine.go, loadRegistry, over services.yaml
--     and the temporary file beside it.
--   * Actions: actions.go, the table of actions, serviceOperations, targetAllowed,
--     validateActionRequest, and main.go, runServiceAction, over a world that a command changes.
--   * Plists: registry.go, plistServiceName, diffPlists, pruneStalePlists, and engine.go, the two loops of
--     writeArtifacts, over a directory as a map from names to files and folders.
--   * Launchd: engine.go, GenerateLaunchdPlist and GenerateSystemDaemonPlist, as text. Launchd/Xml is
--     encoding/xml's EscapeText, Launchd/Reader an XML reader to hold it against.
--   * Artifacts: engine.go, buildCatalog, desiredArtifacts, writeArtifacts, over the two files and the two
--     directories of the bundle that they replace.
--   * FileDiff: registry.go, diffFiles, computeLineDiff, diffCatalog.
--   * Deploy: registry.go, Diff and Apply, and engine.go, syncSystem.
--   * Events: events.go, the audit log, with redactOutput in Events/Redact.
--   * Execute: actions.go, executeAction and the handlers of the deploy and registry actions, over a state
--     of all that an action changes: the commands' world, the bundle, the profile's files, the log.
--   * Caddyfile: engine.go, GenerateCaddyfile and its writers; each writer is the text it adds.
--   * Http: main.go, withMethod, proxyIdentity, withAuth, withMutation and the routes of runServer.
--   * Health: main.go, collectServices, deriveOverall, checkRoute; incidents.go. Health/Network is
--     checkPort, checkHTTP and getCaddyConfig on what the network answers.
--   * Handlers: main.go, handleAction, handleEvents, handleDeployPreview, and deploy.go. Handlers/History is
--     the step relation of the requests and of the runs of sync, with the states that they reach.
--   * Pages: main.go and portal.go, the handlers that only read (handleOverview, handleIncidents,
--     handleServices, handleStatus, handleAsset, handlePortalCatalog, handlePortalStatus).
--   * Discover: main.go, discoverBundleDir and bundleFromPath.
--   * Gateway: portable/home-stack/dev-gateway/main.go, the director of the development proxy.
--   * Inspect: main.go, collectLaunchdServices, populateLaunchdStatus, parseLaunchctlField, and the
--     arguments of launchd-status. Inspect/Cache is launchdServices, over the calls that hold its lock.
--   * Doctor: doctor.go, with main.go, handleDoctor and localCaddyAdminURL, and engine.go, validateEnv.
--   * Portal: portal.go, the catalog and the status that the portal reads.
--   * Tests: a small house, and the theorems at concrete inputs.
-- Prelude holds what the program uses of Go's standard library (strings, sort, path/filepath, anchored
-- regular expressions matched by derivatives), and association lists for Go's maps. A map is iterated
-- in the order of its list, and the results that say so hold for every permutation of it.
--
-- The registry that Validate accepts is what the other parts read: Actions looks an entry up before it
-- starts a command, Edits validates and reloads it before it replaces the file, Artifacts generates the
-- Caddyfile, the plists and the catalog from it, which Deploy writes and compares, Health probes it, and
-- Portal projects it.
--
-- Go's int is the type ℤ, without bounds: the program compares such numbers and prints them. Every loop
-- is a structural recursion, over a list or a text, but the one of bundleFromPath, which goes up the
-- directories on fuel: the length of the path and three are enough, since filepath.Dir shortens a path.
--
-- What the program calls and this library cannot read is a parameter: the commands it starts, whether a
-- file can be written or removed, the probes of the network, net/http's BasicAuth, net/url's Parse, the
-- JSON parser, the YAML library, and fmt's %q. Texts are sequences of code points; a regular
-- expression's match is exact for them, and EqualFold folds the ASCII letters only. Times, logs and
-- HTTP encoding are left out, but for the times that the cache of launchd compares. A history lets each
-- request find its own failures of the disk, the commands and the libraries; it leaves out edits of
-- services.yaml by hand, and it takes the requests and the syncs one after the other. net/http serves
-- requests concurrently, and AddService and RemoveService share services.yaml.tmp without a lock, so
-- what is shown of histories and of an edit is not shown of edits that overlap.
--
-- What the program only reads is a function of its input here (Diff, the checks of Health, the pages):
-- that it writes nothing is part of the model and not a result. A write that fails
-- may leave a text that is cut short, in a generated file and in the audit log, which is its lines and
-- what stands after the last newline.
pub mod Prelude
pub mod Registry
pub mod Validate
pub mod Validity
pub mod Actions
pub mod Pages
pub mod Plists
pub mod Health
pub mod Http
pub mod Portal
pub mod Caddyfile
pub mod Edits
pub mod Launchd
pub mod FileDiff
pub mod Artifacts
pub mod Deploy
pub mod Discover
pub mod Events
pub mod Execute
pub mod Gateway
pub mod Handlers
pub mod Inspect
pub mod Doctor
pub mod Tests
