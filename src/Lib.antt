-- ===== src/Lib.antt =====
-- The gateway between API clients and several Ollama servers: a model of its core and what holds of it.
--
-- The parts and how they interact. A request carries an API key,
-- which authentication (internal/auth) turns into a user. The rate limiter
-- (internal/ratelimit) lets it through or answers 429. The resolver (internal/models) turns the
-- requested model name into a catalog entry by the user's aliases, deny list and allow list, and asks
-- the backend manager (internal/backends) for a pool of the entry's backends. The pool picks one of
-- them by smooth weighted round-robin; the health checker decides which of them take part. The proxy
-- (internal/proxy) sends the request to it, passes the answer on and reads its token counts. What a
-- request used goes, with its price, to the usage logger (internal/usage), which stores it in batches. The
-- certificate of the server is watched and swapped by internal/tlsruntime. The
-- configuration (internal/config) is loaded, given defaults, validated, and reloaded when the file
-- changes, within what the runtime policy allows. Backends, models with their backends and prices, users
-- and usage records stand in tables of a database, which the dashboard (internal/dashboard) shows and
-- changes.
--
-- The files.
-- - Common and its children: text, tables, integers, Boolean tests, lists.
-- - Backends: `Backend` of internal/backends/backend.go. Pool has `Select` of pool.go, as a scan of
--   the entries over a heap of backends that pools share by pointer; Pool/Loop, Pool/Shares and
--   Pool/Tally lead to Pool/Fairness, and Pool/Choice is about any pool. Manager has manager.go, with
--   Manager/Consistency, Manager/History, Manager/Routing and Manager/Defaults. Health has `checkBackend` of
--   healthcheck.go, Health/Effects what it does to the selection.
-- - Models: normalize.go, model.go and registry.go of internal/models, with Resolution and Visibility;
--   Catalog has `NormalizeCatalog` and resolver.go, with Catalog/Merging and Catalog/Resolving.
-- - Ratelimit: limiter.go and middleware.go of internal/ratelimit, with Bucket, Rate, Eviction and Keys (the
--   buckets by key).
-- - Usage: logger.go of internal/usage, with Logger and Logger/Delivery.
-- - Config: config.go of internal/config, with Valid and Defaults; Policy has runtime_policy.go, Reloader
--   has reloader.go, with Reloader/Failsafe and Reloader/Debounce.
-- - Auth: apikey.go, middleware.go and, for a store without a database, store.go of internal/auth, with
--   Auth/Users. Auth/Database has store.go with the database that main.go requires, and `Middleware`; it
--   is what Gateway and the dashboard use. Auth/Checks is about `Middleware`, Database/Bootstrap about
--   `Validate`, with Database/Accounts and Database/Primary.
-- - Usage/Pricing: pricing.go of internal/usage.
-- - Backends/Store: store.go of internal/backends, the table of backends, with Store/Rows. Models/Discovery:
--   discovery.go of internal/models, with Discovery/Found. Backends/Calls: the calls of backend.go to Ollama.
-- - Models/Store: store.go of internal/models, the tables of models and of their backends. Store/Pricing has the
--   table of prices, Store/Editing `UpsertModel` and `DeactivateModel`; Store/Loading and Store/Syncing
--   are about `LoadActiveCatalog` and `SyncDiscoveredCatalog`.
-- - Usage/Store: store.go of internal/usage, the table of records, with Store/Pages and Store/Totals.
-- - Dashboard: handler.go of internal/dashboard. Routes has `ServeHTTP` and `isAuthenticated`; Pulls the
--   downloads, with Pulls/Jobs and Pulls/Views; Access which users may use a model, with Access/Effects;
--   Catalog the forms for models, with Catalog/Saving and Catalog/Deleting; Servers the forms for backends, with Servers/Alignment and Servers/History; Forms the texts of the forms,
--   with Forms/Aliases, Forms/Roundtrip and Forms/References.
-- - Proxy: handler.go, response.go and transport.go of internal/proxy. Capture has the writer of response.go,
--   with Capture/Lines and Capture/Counts; Errors has `writeJSONError`; Outgoing has the request as it is read
--   and as it goes out, with Outgoing/Laws; Handler has the data and the helpers of `ServeHTTP`, and Serve
--   its steps, with Serve/Routes, Serve/Accounting and Serve/Streams.
-- - Tls: manager.go of internal/tlsruntime, with Refresh and Expiry; Tls/Provider has provider.go, with
--   Provider/Watchers.
-- - Gateway: the chain of handlers of cmd/gateway/main.go and its `applyReloadBackends`, with Chain, Sweep and
--   Reload.
-- - Tests: the theorems at concrete inputs.
--
-- How the code is read. A method that changes an object is a function from its state to its state; an
-- error is `none`, or a data type where callers tell errors apart. A Go map is an association list,
-- whose order is the order in which `range` meets the entries. Text is a list of ASCII codes. Go's
-- `int` is an integer that wraps around at 64 bits where the scheduler and the counters add
-- (`int64`); elsewhere sums stay within what the configuration holds. float64 amounts of the rate
-- limiter are exact, in units of 10^-18 tokens and 10^-9 tokens a second, so rounding of floating point
-- is not modelled: it can make the seconds of `Retry-After` one too few. A download's stream is one that
-- ends. Clocks are Go's monotonic clock, given as an argument. Mutexes make each method one
-- step, which is how the methods are composed here. Loops are structural recursion over the lists
-- that they run through. The loop of `parseForUsage` alone has fuel, one round more than the buffer has
-- bytes: each round takes a byte at least. Prices are exact too: rates in units of 10^-9 dollars for a
-- million tokens and costs in units of 10^-8 dollars. The tables of backends, users,
-- models and prices are association lists by their keys, those of the backends of a model and of usage records
-- lists of rows, as their SQL statements change them.
--
-- Parameters: parsing URLs and YAML, which files can be read, the TCP dial to Redis, the hash of the
-- file, SHA-256 and hex, the outcome of a probe, JSON, that of lists and maps in the table of users included,
-- the exchange with a backend and how Go's reverse proxy copies its answer, reading and parsing of
-- certificates, what Ollama answers, SQLite's LIKE, `strconv.Atoi`, and the functions that put a new configuration in force.
--
-- Not modelled: an error of the database, log lines, the HTML pages and themes of the dashboard and its
-- form for users, `ParseModelShowMetadata` of backend.go, the start and the end of the process, the
-- loader of the configuration file (internal/config/loader.go), and the installer.
pub mod Common
pub mod Backends
pub mod Models
pub mod Ratelimit
pub mod Usage
pub mod Config
pub mod Auth
pub mod Proxy
pub mod Tls
pub mod Dashboard
pub mod Gateway
pub mod Tests
