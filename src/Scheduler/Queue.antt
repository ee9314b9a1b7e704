-- ===== src/Scheduler/Queue.antt =====
-- The queue of `LeagueSyncWorker` in apps/api/src/scheduler/worker.ts: `enqueue`, `pump` and
-- `workerLoop`, between two suspensions of the event loop. A job is one shared object, which `jobs`
-- (`pending`) holds; the queue and the running workers name it by its league.
pub mod Counting
pub mod Pooling
use sleeper_ff.Prelude.{
  ℕ, zero, suc, ◌+◌, ◌-◌, String, Bool, true, false, ◌&&◌, ◌||◌, Option, none, some, List, [], ◌∷◌,
  ◌++◌, str_eq, ltb, if◌then◌else◌, or_else, or_option, length, includes, is_some,
}
use sleeper_ff.Prelude.Assoc.{Assoc, lookup, insert, remove}
use sleeper_ff.Records.{Stamp}

pub record SyncJob : Type 0 where
  pub league_id : String
  pub reason : String
  pub force : Bool
  pub week : Option ℕ
  pub queued_at : Stamp

-- `idle` counts the workers that have settled a job and not yet looked for another, and `leaving` those
-- that found none and returned, and that `workers` still holds: `worker.finally` removes them later.
pub record Pool : Type 0 where
  pub jobs : Assoc SyncJob
  pub queue : List String
  pub running : List String
  pub idle : ℕ
  pub leaving : ℕ

abbrev pub empty_pool : Pool
empty_pool = record { jobs = []; queue = []; running = []; idle = 0; leaving = 0 }

-- `workers.size`
abbrev pub workers : Pool → ℕ
workers p = length p.running + p.idle + p.leaving

pub record EnqueueOptions : Type 0 where
  pub reason : Option String
  pub force : Bool
  pub week : Option ℕ

-- `state(leagueId)`, less its position
abbrev pub is_running : String → Pool → Bool
is_running id p = includes id p.running

-- `queue.shift()`: a worker takes the first job, where `queue` is the pool's queue.
abbrev pub shifted : List String → Pool → Pool
shifted [] p = p
shifted (id ∷ queue) p = record p { queue = queue; running = id ∷ p.running }

abbrev pub has_work : List String → Bool
has_work [] = false
has_work (id ∷ queue) = true

module _ (concurrency : ℕ) where
  -- `pump`: one turn of its loop for each `fuel`; a turn takes a job off the queue.
  unfoldable pub pump : ℕ → Pool → Pool
  pump zero p = p
  pump (suc fuel) p =
      let rest = pump fuel (shifted p.queue p) in
      if ltb (workers p) concurrency && has_work p.queue then rest else p

  abbrev pub joined : EnqueueOptions → SyncJob → SyncJob
  joined o job = record job { force = job.force || o.force; week = or_option o.week job.week }

  abbrev pub enqueued : String → EnqueueOptions → Stamp → Option SyncJob → Pool → Pool
  enqueued id o now (some job) p = record p { jobs = insert id (joined o job) p.jobs }
  enqueued id o now none p =
      let job : SyncJob = record {
        league_id = id;
        reason = or_else o.reason "manual";
        force = o.force;
        week = o.week;
        queued_at = now;
      } in
      pump (length p.queue + 1)
        (record p { jobs = insert id job p.jobs; queue = p.queue ++ id ∷ [] })

  -- `enqueue`
  unfoldable pub enqueue : String → EnqueueOptions → Stamp → Pool → Pool
  unfolding pump
  enqueue id o now p = enqueued id o now (lookup id p.jobs) p

-- The first occurrence goes.
unfoldable pub without : String → List String → List String
without id [] = []
without id (x ∷ xs) = let rest = without id xs in if str_eq x id then xs else x ∷ rest

-- `workerLoop` after `runJob` of a running league: the job is over before its waiters hear of it.
unfoldable pub settle : String → Pool → Pool
unfolding without
settle id p =
    if includes id p.running
    then record p { jobs = remove id p.jobs; running = without id p.running; idle = p.idle + 1 }
    else p

-- `const job = this.queue.shift(); if (!job) return;`
abbrev pub looked : List String → Pool → Pool
looked [] p = record p { leaving = p.leaving + 1 }
looked (id ∷ queue) p = shifted (id ∷ queue) p

abbrev pub resumed : ℕ → Pool → Pool
resumed zero p = p
resumed (suc n) p = looked p.queue (record p { idle = n })

-- The next turn of the loop of a worker that has settled its job: it takes a job, or returns.
unfoldable pub resume : Pool → Pool
resume p = resumed p.idle p

-- `worker.finally(() => this.workers.delete(worker))`
unfoldable pub leave : Pool → Pool
leave p = record p { leaving = p.leaving - 1 }
