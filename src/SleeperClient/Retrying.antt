-- ===== src/SleeperClient/Retrying.antt =====
-- The retry loop of packages/sleeper-client/src/index.ts: it ends, it reports itself once, and it
-- keeps inside its limits.
use sleeper_ff.Prelude.{
  ℕ, zero, suc, ◌+◌, ◌*◌, ◌^◌, ◌≤◌, ◌<◌, max, ◌≡◌, refl, ap, ◌∙◌, ◌⊎◌, inl, inr, String, Bool,
  Option, some, List, [], ◌∷◌, arith, or_else, All, Bool-cases, leb, ltb, not, ◌||◌,
}
use sleeper_ff.SleeperClient.{
  SleeperApiError, SleeperCallObservation, Options, Reply, Outcome, returned, threw, Event, fetch,
  sleep, observe, Decision, give_up, pause, after_failure, next_of, observation, Call, after,
  settle, attempt_timeout, get_from, get, read_reply,
}

abbrev pub fetches : List Event → ℕ
fetches [] = 0
fetches (fetch limit ∷ es) = suc (fetches es)
fetches (sleep ms ∷ es) = fetches es
fetches (observe o ∷ es) = fetches es

abbrev pub observations : List Event → List SleeperCallObservation
observations [] = []
observations (fetch limit ∷ es) = observations es
observations (sleep ms ∷ es) = observations es
observations (observe o ∷ es) = o ∷ observations es

-- What a decision to wait says of the attempt it follows.
abbrev Allows : Options → ℕ → ℕ → ℕ → Type 0
Allows o attempt at wait =
    (attempt < o.max_retries) × (wait ≤ o.max_retry_after_ms) × (at + wait < o.max_elapsed_ms)

after_failure-cases :
    (o : Options) (attempt at : ℕ) (e : SleeperApiError)
    → (after_failure o attempt at e ≡ give_up)
      ⊎ ((wait : ℕ) × (after_failure o attempt at e ≡ pause wait) × Allows o attempt at wait)
unfolding after_failure
after_failure-cases o attempt at e =
    let wait = or_else e.retry_after_ms (o.backoff_ms * 2 ^ attempt) in
    elim (Bool-cases (not e.retryable || leb o.max_retries attempt)) [
      | inl stop ↦ inl (rw stop refl)
      | inr retry ↦ elim (Bool-cases (ltb o.max_retry_after_ms wait)) [
        | inl long ↦ inl (rw (retry, long) refl)
        | inr short ↦ elim (Bool-cases (leb o.max_elapsed_ms (at + wait))) [
          | inl over ↦ inl (rw (retry, short, over) refl)
          | inr within ↦
              inr
                (wait, (rw (retry, short, within) refl), (ground arith, ground arith, ground arith))
        ]
      ]
    ]

next_of-cases {ℓ} :
    {A : Type ℓ} (o : Options) (attempt at : ℕ) (outcome : Outcome A)
    → (next_of o attempt at outcome ≡ give_up)
      ⊎ ((wait : ℕ) × (next_of o attempt at outcome ≡ pause wait) × Allows o attempt at wait)
unfolding next_of
next_of-cases o attempt at (returned value) = inl refl
next_of-cases o attempt at (threw e) = after_failure-cases o attempt at e

-- One event inside the limits of the options.
abbrev pub InLimits : Options → Event → Type 0
InLimits o (fetch limit) = (1 ≤ limit) × (limit ≤ max 1 o.timeout_ms)
InLimits o (sleep ms) = ms ≤ o.max_retry_after_ms
InLimits o (observe seen) = Unit

module _ {ℓ} {A : Type ℓ} (o : Options) (parse_date : String → Option ℕ) (validate : A → Bool)
    (endpoint : String) (started_at : ℕ) (exchange : ℕ → ℕ → Reply A × ℕ) (late : ℕ → ℕ) where
  abbrev loop : ℕ → ℕ → ℕ → Option (Call A)
  loop = get_from o parse_date validate endpoint started_at exchange late

  Reported : ℕ → Call A → Type 0
  Reported attempt c =
      (1 ≤ fetches c.trace)
      × (attempt + fetches c.trace ≤ o.max_retries + 1)
      × (observations c.trace
          ≡ observation endpoint (attempt + fetches c.trace) c.ended c.outcome ∷ [])

  -- The outcome of an attempt, and the time since the call began when it is known.
  abbrev at_of : ℕ → ℕ → ℕ
  at_of attempt elapsed = elapsed + (exchange attempt (attempt_timeout o elapsed)).1

  abbrev outcome_of : ℕ → ℕ → Outcome A
  outcome_of attempt elapsed =
      read_reply parse_date validate (started_at + at_of attempt elapsed)
        (exchange attempt (attempt_timeout o elapsed)).0

  abbrev last_call : ℕ → ℕ → Call A
  last_call attempt elapsed =
      let outcome = outcome_of attempt elapsed in
      let at = at_of attempt elapsed in
      record {
        trace =
            fetch (attempt_timeout o elapsed)
            ∷ observe (observation endpoint (attempt + 1) at outcome)
            ∷ [];
        outcome = outcome;
        ended = at;
      }

  abbrev retried : ℕ → ℕ → ℕ → ℕ → Option (Call A)
  retried fuel attempt elapsed wait =
      after (fetch (attempt_timeout o elapsed) ∷ sleep wait ∷ [])
        (loop fuel (suc attempt) (at_of attempt elapsed + wait + late attempt))

  get_from_lem :
      (fuel attempt elapsed : ℕ) {d : Decision}
      → next_of o attempt (at_of attempt elapsed) (outcome_of attempt elapsed) ≡ d
      → loop (suc fuel) attempt elapsed
        ≡ settle d (last_call attempt elapsed) (retried fuel attempt elapsed)
  unfolding get_from
  get_from_lem fuel attempt elapsed e =
      ap (λ d. settle d (last_call attempt elapsed) (retried fuel attempt elapsed)) e

  -- What holds of a call's last attempt, and of an earlier one where it holds of the rest, holds of
  -- every call; and with this much fuel there is a call.
  get_from_induction {κ} :
      (P : ℕ → ℕ → Call A → Type κ)
      → ((attempt elapsed : ℕ)
          → attempt ≤ o.max_retries
          → P attempt elapsed (last_call attempt elapsed))
      → ((attempt elapsed wait : ℕ) (c : Call A)
          → Allows o attempt (at_of attempt elapsed) wait
          → P (suc attempt) (at_of attempt elapsed + wait + late attempt) c
          → P attempt elapsed
              (record c { trace = fetch (attempt_timeout o elapsed) ∷ sleep wait ∷ c.trace }))
      → (fuel attempt elapsed : ℕ) → attempt ≤ o.max_retries
      → o.max_retries < fuel + attempt
      → (c : Call A) × (loop fuel attempt elapsed ≡ some c) × P attempt elapsed c
  get_from_induction P last more zero attempt elapsed h f = absurd (omega arith)
  get_from_induction P last more (suc fuel) attempt elapsed h f =
      let at = at_of attempt elapsed in
      elim (next_of-cases o attempt at (outcome_of attempt elapsed)) [
        | inl stop ↦ (_, get_from_lem fuel attempt elapsed stop, last attempt elapsed h)
        | inr (wait, e, allowed) ↦
            let rest =
              get_from_induction P last more fuel (suc attempt) (at + wait + late attempt)
                (omega (arith, allowed.0)) (omega arith) in
            (
              _,
              get_from_lem fuel attempt elapsed e
                  ∙ ap (after (fetch (attempt_timeout o elapsed) ∷ sleep wait ∷ [])) rest.1,
              more attempt elapsed wait rest.0 allowed rest.2,
            )
      ]

  last_Reported :
      (attempt elapsed : ℕ) → attempt ≤ o.max_retries → Reported attempt (last_call attempt elapsed)
  unfolding Reported
  last_Reported attempt elapsed h = (omega arith, omega arith, refl)

  more_Reported :
      (attempt elapsed wait : ℕ) (c : Call A)
      → Allows o attempt (at_of attempt elapsed) wait
      → Reported (suc attempt) c
      → Reported attempt
          (record c { trace = fetch (attempt_timeout o elapsed) ∷ sleep wait ∷ c.trace })
  unfolding Reported
  more_Reported attempt elapsed wait c allowed (one, most, seen) = (
    omega arith,
    omega arith,
    seen ∙ ap (λ n. observation endpoint n c.ended c.outcome ∷ []) (omega arith),
  )

  -- A call ends: it makes at least one request and at most `maxRetries` after it, and it reports
  -- itself to the observer once, with the number of its requests, its duration, and the category
  -- and the status of the error it throws, if it throws one.
  pub get_reported :
      (c : Call A) × (get o parse_date validate endpoint started_at exchange late ≡ some c)
      × (1 ≤ fetches c.trace)
      × (fetches c.trace ≤ o.max_retries + 1)
      × (observations c.trace ≡ observation endpoint (fetches c.trace) c.ended c.outcome ∷ [])
  unfolding get Reported
  get_reported =
      let (c, found, (one, most, seen)) =
        get_from_induction (λ attempt elapsed c. Reported attempt c) last_Reported more_Reported
          (o.max_retries + 1) 0 0 (omega arith) (omega arith) in
      (
        c,
        found,
        one,
        omega (arith, most),
        seen ∙ ap (λ n. observation endpoint n c.ended c.outcome ∷ []) (omega arith),
      )

  Timely : ℕ → ℕ → Call A → Type 0
  Timely d elapsed c =
      (elapsed < o.max_elapsed_ms + d → c.ended ≤ o.max_elapsed_ms + d) × All (InLimits o) c.trace

  -- Where the time limit of a request stops it, timers are late by at most `d` milliseconds and
  -- `maxElapsedMs` is not 0, a call ends within `maxElapsedMs` and `d` more. Each of its requests
  -- has a limit of at least 1 ms and at most `timeoutMs` (or 1 ms, where that is 0), and each wait
  -- between two requests takes at most `maxRetryAfterMs`.
  pub get_timely :
      (d : ℕ)
      → 1 ≤ o.max_elapsed_ms
      → ((attempt limit : ℕ) → (exchange attempt limit).1 ≤ limit)
      → ((attempt : ℕ) → late attempt ≤ d)
      → (c : Call A) × (get o parse_date validate endpoint started_at exchange late ≡ some c)
        × (c.ended ≤ o.max_elapsed_ms + d)
        × All (InLimits o) c.trace
  unfolding get Timely
  get_timely d pos stops late_le =
      let (c, found, (ends, limits)) =
        get_from_induction (λ attempt elapsed c. Timely d elapsed c)
          (λ attempt elapsed h. (
            λ early. ground (arith, stops attempt (attempt_timeout o elapsed)),
            ((omega arith, omega arith), (tt, tt)),
          ))
          (λ attempt elapsed wait c allowed rest. (
            λ early. rest.0 (ground (arith, late_le attempt)),
            ((omega arith, omega arith), (allowed.1, rest.1)),
          ))
          (o.max_retries + 1) 0 0 (omega arith) (omega arith) in
      (c, found, ends (omega arith), limits)
