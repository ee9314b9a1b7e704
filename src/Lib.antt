-- ===== src/Lib.antt =====
-- What the server of this repository (apps/api) does with its state, and the theorems on it.
--
-- The server answers a browser from one stored document, which a background worker brings up to date
-- from the Sleeper API. Its parts, and the modules that model them:
--   RateLimit      apps/api/src/rate-limit.ts: the budgets of a request (`sweep`, `charge`, `rateLimit`)
--   Auth           apps/api/src/auth.ts: the session policy, `issueSession`, `rotateSession`, and the
--                  middlewares `authentication` and `csrf`
--   Records        apps/api/src/storage/records.ts and packages/domain/src/index.ts: the stored records
--   Store          apps/api/src/store.ts: `JsonStore`, in Leases (with apps/api/src/scheduler/lock.ts),
--                  Sessions, Connections, Sync, Accounts, Aliases, Runs,
--                  Forecasts, Rosters, Advice, Directory, and Contexts for what is read
--   SleeperClient  packages/sleeper-client/src/index.ts: the client of the Sleeper API, `get` and its retries
--   LeagueSync     apps/api/src/sync.ts: one league's synchronization (`serialized`, `perform`), which
--                  publishes through Store.Sync under a lease of Store.Leases
--   Players        apps/api/src/players.ts: the player directory, kept in Store.Directory
--   Providers      apps/api/src/providers: schedule.ts in Schedule, identity.ts in Identity,
--                  service-level.ts in ServiceLevel, feed-store.ts in FeedStore
--   Config         apps/api/src/config: proxy.ts in Proxy, origins.ts in Origins
--   Http           apps/api/src/http: body.ts in Body, validation.ts in Validation
--                  and Selection
--   Scheduler      apps/api/src/scheduler: week.ts in Week (and Calendar, from providers/configure.ts),
--                  worker.ts in Retention, Queue, Worker, Sweep and Timer
--   Observability  apps/api/src/observability: health.ts in Health and below it, alerts.ts in Alerts,
--                  metrics.ts in Metrics
--   Shutdown       apps/api/src/shutdown.ts, lifecycle.ts
--   Prelude        the shared names: lists, texts, and objects as association lists
--   Examples       the theorems on concrete inputs
-- A method of the store is one queued write of the whole document, so it is a function on the record
-- `StoreShape`, and a middleware or an attempt composes those functions as the code calls them. The
-- worker's queue is a step relation, since its jobs interleave; so are the leases, whose owners do. An
-- error is a value: `none`, a verdict, or a constructor of a result. A time is a number of milliseconds
-- and a difference of times is compared without a subtraction, as `now < since + window`.
--
-- Bounds that stand for loops: the turns of `pump` are the length of the queue, each turn takes a job
-- off it, and the loop is shown to end with no job waiting or no worker free. The attempts of a call
-- of the client are `maxRetries + 1`, and a call is shown to end within them. The minutes that
-- `nextRun` scans are the source's own eight days.
--
-- Parameters: the digest of a token, the random tokens and offsets, the clock, the synchronizer that the
-- worker is given, what the upstream answers, the reading of dates, time zones, URLs and letter case,
-- and the id of a scoring snapshot. Floating point is not modelled: rates are compared
-- as fractions, and a delay that a double cannot hold exactly is over its cap. Not modelled: the file
-- under the store, express, the output of metrics and logs, the texts of alerts and of errors, the fetching
-- of projections, scoring and rankings, and the web application.
pub mod Prelude
pub mod RateLimit
pub mod Config
pub mod Http
pub mod LeagueSync
pub mod Players
pub mod Providers
pub mod Records
pub mod SleeperClient
pub mod Store
pub mod Auth
pub mod Scheduler
pub mod Observability
pub mod Shutdown
pub mod Examples
