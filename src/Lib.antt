-- ===== src/Lib.antt =====
-- QuickPrice serves quotes, histories, dividends and yields of instruments from several market-data
-- providers. This library models the parts of `src/quickprice` that decide which provider is asked,
-- how often, and what a reader of the caches sees.
--
-- The parts and the code they follow:
-- * Quota (`src/quickprice/providers/quota.py`): `QuotaBudget`, the requests that a provider may get
--   in a day, hour or minute, with its durable checkpoint; and the budgets built from limits.
-- * RateGate (the same file): `SlidingWindowRateGate`, which delays the calls of a provider.
-- * TtlCache (`src/quickprice/providers/_ttl.py`): `AsyncTtlCache`, answers and expected errors of a
--   loader that several callers share.
-- * Circuit (`src/quickprice/providers/router.py`): the circuit breaker of a provider of a route.
-- * Router (the same file): the table of routes, the way of one request down a chain of providers
--   with their circuits, the join of partial histories, and the fetches in flight that the callers of
--   one key share (`_execute`, Router.Flights), whose steps come in any order.
-- * Limiter (`src/quickprice/auth.py`): `TokenBucketLimiter`, the rate limit of API callers.
-- * Admin (`src/quickprice/admin_security.py`): logins of the administrator with one-time
--   codes, the sessions they open and the change of the account, limited by the Limiter's buckets.
-- * Auth (`src/quickprice/auth.py`): `Authenticator`, API keys and a limiter each for callers with
--   a valid key and for the others.
-- * ApiKeys (`src/quickprice/api_keys.py`, `src/quickprice/storage/records.py`): `ApiKeyManager`, the
--   keys that the Authenticator asks for, from their creation to their revocation.
-- * Snapshots and History (`src/quickprice/cache.py`): `SnapshotStore`, the latest snapshot of each
--   symbol, and `HistoryCache`, the rings of points that collectors add and requests read. The
--   methods on the rings of one symbol stand in History; History.Cache has all symbols with the
--   references that are kept for a minute and their invalidation, History.Load the batches,
--   History.Register the recipes of derived histories with the search for cycles, and History.Retain
--   the symbols that are kept with all that they are made of.
-- * Analytics (`src/quickprice/analytics.py`): the changes of a price over rolling windows, from the
--   whole history or from the references of the cache.
-- * Synthetic (`src/quickprice/providers/synthetic.py`): quotes and histories that are computed from
--   those of one or two other instruments; History.Virtual is the cache's own way to a point of such
--   a history (`_synthetic_reference_at_locked`).
-- * Registry (`src/quickprice/registry.py`): `InstrumentRegistry`, the checks of plugins and of their
--   recipes, with the search for cycles, and the symbols and aliases of instruments.
-- * Market (`src/quickprice/market.py`): the sessions of the market calendars, without holidays.
-- A request meets the authenticator and its limiters first; the service then reads snapshots and
-- history; the collectors fill these through the router, whose circuits skip failing providers, and
-- the provider adapters charge their quota budget and pass their rate gate before each call, behind
-- a TTL cache.
--
-- Conventions. A method of a class is a function from the state it reads to the state it leaves with
-- its result; the part of a coroutine that runs under a lock is one step. Clocks, loaders, the
-- durable write of a budget, the replies of providers, the decimal arithmetic of prices, Python's
-- methods of texts, what other tasks do meanwhile and Python's `hash` are arguments. Times, counts
-- and tokens are natural numbers: floats are not modelled, the limiter counts tokens in exact
-- fractions of a minute instead. An exception is a value. `RateGate.acquire` runs on fuel, of which
-- two rounds suffice for a task that meets no other. The search of the Registry has fuel for one round
-- more than there are symbols, the invalidation of references and the search for a cycle of recipes
-- for two rounds more than there are dependents or inputs on record, the closure of the symbols to
-- keep for one round for each of them and of the inputs; each is shown to be enough.
--
-- Not modelled: metrics and log lines; the HTTP layers, the storage on SQLite and in files, the
-- adapters of third-party services and the dashboards, which are input and output; `close` of the
-- router, and `sizes` of `HistoryCache`, which only counts; the yields of analytics.py, which are
-- single formulas of decimal arithmetic; the wiring of these parts by the catalogs, the collectors,
-- the service, the compiler of provider routes and the stored settings.
pub mod Admin
pub mod Analytics
pub mod ApiKeys
pub mod Auth
pub mod Circuit
pub mod History
pub mod Limiter
pub mod Market
pub mod Prelude
pub mod Quota
pub mod RateGate
pub mod Registry
pub mod Router
pub mod Snapshots
pub mod Synthetic
pub mod TtlCache
