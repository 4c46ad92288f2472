-- ===== src/Lib.antt =====
-- chainctl: an installer of an application on k3s or on a given cluster. This library models the
-- parts of the program that carry its own logic and proves what makes them correct.
--
-- The parts and their files, each with the code it follows:
--   Tokens, Tokens/MemoryStore (pkg/tokens/store.go): join tokens, `generateToken`, and the store
--     in memory with `Create`, `Consume` and `ForceExpire` as steps on its map.
--   Tokens/KubeStore (pkg/tokens/kube_store.go): the store in a cluster. `Consume` reads a secret
--     and writes it back; the two halves are `read_checked` and `write_consumed`, so that other
--     consumers may come between them.
--   Config, Config/Resolver (pkg/config): the types of a declarative configuration and
--     `ResolveInvocation`, which lays the flags of defaults, profiles, command and runtime over
--     one another.
--   Loader (internal/config/loader.go, internal/config/cobra_catalog.go): from the decoded YAML to
--     such a configuration.
--   Locator (internal/config/locator.go): where the file of the configuration is looked for.
--   Profile (internal/config/profile_loader.go): the validated options of an installation.
--   Bundle, Bundle/Load (pkg/bundle/bundle.go): a bundle's archive is extracted below a cache
--     directory and its checksums are compared.
--   State (internal/state/resolver.go), State/Manager (pkg/state/state.go): where the state file
--     lies and how it is replaced by way of a temporary file.
--   Sanitizer (internal/cli/logging/sanitizer.go): what is redacted before something is logged.
--   Logger, Logger/Phases (pkg/telemetry): entries, events and `EmitPhase`.
--   Helm (pkg/helm): the chart's source, and the logging executor, which puts the arguments of a
--     release through the sanitizer and its entries through the logger. It takes a profile and the
--     bundle that the resolver loaded.
--   Secrets (pkg/secrets): the encrypted envelope of a file of values.
--   Bootstrap (pkg/bootstrap): the orchestrator's choice of a script to install k3s and the runner
--     that logs its commands by way of the sanitizer.
--   Preflight (internal/validation/preflight.go): the checks of the host, over an inspector.
--   Binder, Binder/Run (cmd/chainctl/declarative/binder.go): `Manager.apply`, which locates, loads
--     and resolves a configuration by Locator, Loader and Config, sets the flags of the command and
--     prints the summary of Config/Summary (pkg/config/summary.go).
--   CommandLog (cmd/chainctl/app/logging.go, cmd/chainctl/declarative/binder.go): the log entries
--     of the commands.
--   App (cmd/chainctl/app): the install and the upgrade of the application. App/Sources resolves
--     the chart, by way of Helm or of Bundle, App/Puller is the puller of charts, App/World is what
--     a run is given and the state that it changes, App/Run has `runAppAction`, which takes the
--     profile from Profile, the path from State, the phase from Logger, and writes a record by the
--     state manager.
--   ClusterInstall (cmd/chainctl/cluster/install.go): `runInstall`, from Preflight and Profile to
--     the phases of bootstrap and helm, in ClusterInstall/World and ClusterInstall/Run.
--   Upgrade (pkg/upgrade/controller.go), ClusterUpgrade (cmd/chainctl/cluster/upgrade.go): the
--     planner of upgrades, over the API server, and the command that runs it in a phase.
--   Node (cmd/chainctl/node): the commands that create a token and join a node, over a store of
--     tokens, such as the one of Tokens/MemoryStore.
--   EncryptCommand (cmd/chainctl/secrets/encrypt.go): `runEncryptCommand`, from the prompt at a
--     terminal to EncryptFile of Secrets.
-- Prelude, Result, Exec, Text, Dict and FilePath are shared: errors as values, a state with errors,
-- Go's strings, maps and path/filepath. The children of a part hold its proofs, named for what they
-- prove, and Tests has the parts at concrete inputs.
--
-- How the code is rendered: a text is the list of its bytes, and TrimSpace, ToLower, ToUpper and
-- EqualFold treat ASCII, as does the case folding of the sanitizer's pattern; paths are those of Unix. An error is a constructor, without the message
-- that goes with it, and %q is the text between quotes. A map is an association list whose order is
-- that of the iteration at hand. A method that runs under a mutex is one step. A disk is a map of
-- paths to contents, and a parameter says which calls of the operating system fail. Times are
-- nanoseconds after an origin in the past, and a duration may be negative. There is no fuel: every
-- loop is a recursion on the list or the text it goes over. The bounds are the code's own: a token
-- lives 24 hours at most, and the sanitizer's pattern takes 128 runes of a value.
--
-- Parameters, since their code is elsewhere: SHA-256, scrypt and AES-GCM, the random source, JSON,
-- YAML and tar, the API server of the cluster, the puller of charts and the executor of a helm
-- upgrade. What a theorem needs of one is a hypothesis of it, such as the optimistic locking of the
-- server or that an AEAD opens what it sealed. The commands take the time, the text of an error,
-- the failure of the JSON encoder, the terminal, the flag set of pflag, tabwriter, the loader of a
-- kubeconfig and helm's LocateChart as parameters; what they print is the text, or the value that the encoder is given, apart from the log.
--
-- Not modelled: the declarations of flags and `Manager.Bind`, which hooks `Manager.apply` in front of
-- the commands of cobra; what the inspector of the host reads; starting a process; the constructors
-- that only fill in defaults; the wiping of buffers.
pub mod Prelude
pub mod Result
pub mod Text
pub mod Dict
pub mod FilePath
pub mod Exec
pub mod Tokens
pub mod Config
pub mod Loader
pub mod Locator
pub mod Profile
pub mod Bundle
pub mod State
pub mod Sanitizer
pub mod Logger
pub mod Helm
pub mod Secrets
pub mod Bootstrap
pub mod Preflight
pub mod Binder
pub mod CommandLog
pub mod App
pub mod ClusterInstall
pub mod Upgrade
pub mod ClusterUpgrade
pub mod Node
pub mod EncryptCommand
pub mod Tests
