-- ===== src/Scheduler/Queue/Pooling.antt =====
-- The invariants of the worker's queue, over every order of its steps.
use sleeper_ff.Prelude.{
  ℕ, zero, suc, ◌+◌, ◌-◌, ◌≤◌, ◌<◌, ◌≡◌, refl, ◌∙◌, sym, ap, ◌&&◌, String, Option, none, some, List,
  [], ◌∷◌, ◌++◌, arith, str_eq, eq_iff, ltb, if◌then◌else◌, length, length-append, includes,
  is_some, or_else, Bool-cases, inl, inr,
}
use sleeper_ff.Prelude.Assoc.{lookup, insert, lookup-insert, lookup-remove}
use sleeper_ff.Records.{Stamp}
use sleeper_ff.Scheduler.Queue.{
  Pool, SyncJob, EnqueueOptions, empty_pool, workers, shifted, has_work, pump, enqueue, enqueued,
  joined, settle, resumed, resume, leave, looked,
}
use sleeper_ff.Scheduler.Queue.Counting.{
  count, count_end, count_same, count-includes, length-without, count-without,
}

module _ (concurrency : ℕ) where
  pub data Step : Pool → Pool → Type 0 where
    enqueues :
        (p : Pool) (id : String) (o : EnqueueOptions) (now : Stamp)
        → Step p (enqueue concurrency id o now p)
    settles : (p : Pool) (id : String) → Step p (settle id p)
    resumes : (p : Pool) → Step p (resume p)
    leaves : (p : Pool) → Step p (leave p)

  pub data Reach : Pool → Type 0 where
    here : Reach empty_pool
    next : {p q : Pool} → Reach p → Step p q → Reach q

-- How often a league is waiting or running.
abbrev pub occurrences : String → Pool → ℕ
occurrences id p = count id p.queue + count id p.running

abbrev pub pending : String → Pool → ℕ
pending id p = if is_some (lookup id p.jobs) then 1 else 0

-- Each league waits or runs once where it is pending, and not otherwise, and the workers are within their
-- limit.
pub record IsPool (concurrency : ℕ) (p : Pool) : Type 0 where
  pub once : (id : String) → occurrences id p ≡ pending id p
  pub bounded : workers p ≤ concurrency

-- The pool's queue as the argument that `shifted` matches on.
shifted-occurrences :
    (id : String) (q : List String) (p : Pool)
    → q ≡ p.queue
    → occurrences id (shifted q p) ≡ occurrences id p
shifted-occurrences id [] p e = refl
shifted-occurrences id (x ∷ q) p e = rw (← e) (ground arith)

shifted-jobs : (q : List String) (p : Pool) → (shifted q p).jobs ≡ p.jobs
shifted-jobs [] p = refl
shifted-jobs (x ∷ q) p = refl

shifted-workers :
    (q : List String) (p : Pool)
    → workers (shifted q p) ≡ (if has_work q then workers p + 1 else workers p)
shifted-workers [] p = refl
shifted-workers (x ∷ q) p = omega arith

shifted-length :
    (q : List String) (p : Pool) → q ≡ p.queue → length (shifted q p).queue ≡ length p.queue - 1
shifted-length [] p e = rw (← e) refl
shifted-length (x ∷ q) p e = rw (← e) (omega arith)

has_work-length : (q : List String) → has_work q ≡ ltb 0 (length q)
has_work-length [] = refl
has_work-length (x ∷ q) = ground arith

pending-new :
    (id k : String) (job : SyncJob) (p : Pool)
    → lookup id p.jobs ≡ none
    → count k (p.queue ++ id ∷ []) ≡ count k (id ∷ p.queue)
    → occurrences k p ≡ pending k p
    → count k (p.queue ++ id ∷ []) + count k p.running
      ≡ (if is_some (lookup k (insert id job p.jobs)) then 1 else 0)
pending-new id k job p e c h = elim (Bool-cases (str_eq id k)) [
  | inl same ↦
      let gone : lookup k p.jobs ≡ none =
        ap (λ i. lookup i p.jobs) (sym ((eq_iff id k).0 same)) ∙ e in
      ground (arith, lookup-insert id k job p.jobs)
  | inr other ↦ ground (arith, lookup-insert id k job p.jobs)
]

module _ (concurrency : ℕ) where
  pump-occurrences :
      (fuel : ℕ) (id : String) (p : Pool)
      → occurrences id (pump concurrency fuel p) ≡ occurrences id p
  unfolding pump
  pump-occurrences zero id p = refl
  pump-occurrences (suc fuel) id p =
      ground
        (arith, pump-occurrences fuel id (shifted p.queue p), shifted-occurrences id p.queue p refl)

  pump-jobs : (fuel : ℕ) (p : Pool) → (pump concurrency fuel p).jobs ≡ p.jobs
  unfolding pump
  pump-jobs zero p = refl
  pump-jobs (suc fuel) p = elim (Bool-cases (ltb (workers p) concurrency && has_work p.queue)) [
    | inl more ↦ rw more (pump-jobs fuel (shifted p.queue p) ∙ shifted-jobs p.queue p)
    | inr done ↦ rw done refl
  ]

  pump-bounded :
      (fuel : ℕ) (p : Pool)
      → workers p ≤ concurrency
      → workers (pump concurrency fuel p) ≤ concurrency
  unfolding pump
  pump-bounded zero p h = h
  pump-bounded (suc fuel) p h =
      ground (arith, pump-bounded fuel (shifted p.queue p), shifted-workers p.queue p)

  -- With a turn for each job of the queue, the loop goes on until no job waits or no worker is free.
  pump-busy :
      (fuel : ℕ) (p : Pool)
      → workers p ≤ concurrency
      → length p.queue ≤ fuel
      → 0 < length (pump concurrency fuel p).queue
      → workers (pump concurrency fuel p) ≡ concurrency
  unfolding pump
  pump-busy zero p h enough waits = omega arith
  pump-busy (suc fuel) p h enough waits = ground (
    arith,
    pump-busy fuel (shifted p.queue p),
    shifted-workers p.queue p,
    shifted-length p.queue p refl,
    has_work-length p.queue,
  )

  pumped :
      (fuel : ℕ) (p : Pool)
      → ((id : String) → occurrences id p ≡ pending id p)
      → workers p ≤ concurrency
      → IsPool concurrency (pump concurrency fuel p)
  pumped fuel p h bound = record {
    once = λ id.
        pump-occurrences fuel id p
        ∙ h id
        ∙ (ap (λ js. if is_some (lookup id js) then 1 else 0) (sym (pump-jobs fuel p)));
    bounded = pump-bounded fuel p bound;
  }

  enqueued-IsPool :
      (id : String) (o : EnqueueOptions) (now : Stamp) (found : Option SyncJob) (p : Pool)
      → lookup id p.jobs ≡ found
      → IsPool concurrency p
      → IsPool concurrency (enqueued concurrency id o now found p)
  enqueued-IsPool id o now (some job) p e h = record {
    once = λ k.
        ground (arith, h.once k, lookup-insert id k (joined concurrency o job) p.jobs, eq_iff id k);
    bounded = h.bounded;
  }
  enqueued-IsPool id o now none p e h =
      let job : SyncJob = record {
        league_id = id;
        reason = or_else o.reason "manual";
        force = o.force;
        week = o.week;
        queued_at = now;
      } in
      pumped (length p.queue + 1) _
        (λ k. pending-new id k job p e (count_end k id p.queue) (h.once k)) h.bounded

  settle-IsPool : (id : String) (p : Pool) → IsPool concurrency p → IsPool concurrency (settle id p)
  unfolding settle
  settle-IsPool id p h = elim (Bool-cases (includes id p.running)) [
    | inl there ↦
        let fewer = length-without id p.running there in
        rw there (record {
          once = λ k. ground (
            arith,
            h.once k,
            eq_iff id k,
            count-without id k p.running there,
            count-includes id p.running,
            lookup-remove id k p.jobs,
            count_same id k p.running,
          );
          bounded = omega (arith, h.bounded);
        })
    | inr absent ↦ rw absent h
  ]

  looked-IsPool :
      (q : List String) (n : ℕ) (p : Pool)
      → q ≡ p.queue
      → p.idle ≡ suc n
      → IsPool concurrency p
      → IsPool concurrency (looked q (record p { idle = n }))
  looked-IsPool [] n p e i h = record { once = h.once; bounded = omega (arith, h.bounded) }
  looked-IsPool (x ∷ q) n p e i h = record {
    once = λ k. shifted-occurrences k (x ∷ q) (record p { idle = n }) e ∙ h.once k;
    bounded = omega (arith, h.bounded);
  }

  resumed-IsPool :
      (n : ℕ) (p : Pool) → p.idle ≡ n → IsPool concurrency p → IsPool concurrency (resumed n p)
  resumed-IsPool zero p e h = h
  resumed-IsPool (suc n) p e h = looked-IsPool p.queue n p refl e h

  Step-IsPool : {p q : Pool} → Step concurrency p q → IsPool concurrency p → IsPool concurrency q
  unfolding enqueue resume leave
  Step-IsPool (enqueues p id o now) h = enqueued-IsPool id o now (lookup id p.jobs) p refl h
  Step-IsPool (settles p id) h = settle-IsPool id p h
  Step-IsPool (resumes p) h = resumed-IsPool p.idle p refl h
  Step-IsPool (leaves p) h = record { once = h.once; bounded = omega (arith, h.bounded) }

  empty-IsPool : IsPool concurrency empty_pool
  unfolding lookup
  empty-IsPool = record { once = λ id. refl; bounded = omega arith }

  -- However the enqueueing of jobs and the settling, resuming and leaving of workers interleave, each
  -- league waits or runs exactly once while it is pending and not at all otherwise, and no more workers
  -- are held than the concurrency allows.
  pub Reach-IsPool : {p : Pool} → Reach concurrency p → IsPool concurrency p
  Reach-IsPool here = empty-IsPool
  Reach-IsPool (next r s) = Step-IsPool s (Reach-IsPool r)

  enqueued-busy :
      (id : String) (o : EnqueueOptions) (now : Stamp) (found : Option SyncJob) (p : Pool)
      → found ≡ none
      → workers p ≤ concurrency
      → 0 < length (enqueued concurrency id o now found p).queue
      → workers (enqueued concurrency id o now found p) ≡ concurrency
  enqueued-busy id o now (some job) p e bound waits = cc
  enqueued-busy id o now none p e bound waits =
      pump-busy (length p.queue + 1) _ bound (omega (arith, length-append p.queue (id ∷ []))) waits

  -- In whatever pool the steps lead to, once a league that was not pending is enqueued a job only waits
  -- where every worker that the concurrency allows is held.
  pub enqueue-busy :
      (id : String) (o : EnqueueOptions) (now : Stamp) {p : Pool}
      → Reach concurrency p
      → lookup id p.jobs ≡ none
      → 0 < length (enqueue concurrency id o now p).queue
      → workers (enqueue concurrency id o now p) ≡ concurrency
  unfolding enqueue
  enqueue-busy id o now {p} r absent waits =
      enqueued-busy id o now (lookup id p.jobs) p absent (Reach-IsPool r).bounded waits
