-- ===== src/LeagueSync/Leasing.antt =====
-- The lease of a run of apps/api/src/sync.ts is given back on every path.
use sleeper_ff.Store.Sync.{publish as publish_write}
use sleeper_ff.LeagueSync.{publish}
