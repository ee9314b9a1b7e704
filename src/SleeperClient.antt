-- ===== src/SleeperClient.antt =====
-- packages/sleeper-client/src/index.ts: the client of the Sleeper API, whose calls retry inside a
-- budget. What answers a request is a parameter: the reply to each attempt and the time it took.
-- A call's effects are its trace: the requests, the waits and the observation it reports. The text
-- of an error's message is not modelled. `Date.now()` is taken not to go back during a call, and
-- code between two awaits to take no time.
pub mod Retrying
use sleeper_ff.Prelude.{
  ℕ, zero, suc, ◌+◌, ◌-◌, ◌*◌, ◌^◌, min, max, String, Bool, true, false, not, ◌&&◌, ◌||◌, Option,
  none, some, List, [], ◌∷◌, ◌++◌, ltb, leb, ◌==◌, str_eq, if◌then◌else◌, or_else,
}
use sleeper_ff.Prelude.Text.{trim, decimal}

pub data SleeperErrorCategory : Type 0 where
  timeout network rate_limit not_found server client validation : SleeperErrorCategory

pub record SleeperApiError : Type 0 where
  pub status : ℕ
  pub category : SleeperErrorCategory
  pub retryable : Bool
  pub retry_after_ms : Option ℕ

pub record SleeperCallObservation : Type 0 where
  pub endpoint : String
  -- `outcome === 'success'`
  pub succeeded : Bool
  pub attempts : ℕ
  pub duration_ms : ℕ
  pub category : Option SleeperErrorCategory
  pub status : Option ℕ

-- The options as given, each of them possibly left out
pub record SleeperClientOptions : Type 0 where
  pub timeout_ms : Option ℕ
  pub max_retries : Option ℕ
  pub backoff_ms : Option ℕ
  pub max_retry_after_ms : Option ℕ
  pub max_elapsed_ms : Option ℕ

-- `this.options`
pub record Options : Type 0 where
  pub timeout_ms : ℕ
  pub max_retries : ℕ
  pub backoff_ms : ℕ
  pub max_retry_after_ms : ℕ
  pub max_elapsed_ms : ℕ

unfoldable pub with_defaults : SleeperClientOptions → Options
with_defaults o = record {
  timeout_ms = or_else o.timeout_ms 10000;
  max_retries = or_else o.max_retries 2;
  backoff_ms = or_else o.backoff_ms 200;
  max_retry_after_ms = or_else o.max_retry_after_ms 5000;
  max_elapsed_ms = or_else o.max_elapsed_ms 20000;
}

-- `parseRetryAfter`. `parse_date` is `Date.parse`, `none` where that is not finite; a date before
-- 1970 is a date at 0, which the subtraction cuts off as well.
unfoldable pub parse_retry_after : (String → Option ℕ) → Option String → ℕ → Option ℕ
parse_retry_after parse_date none now = none
parse_retry_after parse_date (some header) now =
    let value = trim header in
    if str_eq value "" then none else elim (decimal value) [
      | some seconds ↦ some (seconds * 1000)
      | none ↦ elim (parse_date value) [ none ↦ none | some at ↦ some (at - now) ]
    ]

-- What `fetch` makes of one attempt: an answer with its status, its `retry-after` header and its
-- JSON body (`none` where it is no JSON), the abort of the time limit, or any other failure.
pub data Reply {ℓ} (A : Type ℓ) : Type ℓ where
  answered : ℕ → Option String → Option A → Reply A
  timed_out : Reply A
  failed : Reply A

pub data Outcome {ℓ} (A : Type ℓ) : Type ℓ where
  returned : A → Outcome A
  threw : SleeperApiError → Outcome A

unfoldable pub category_of : ℕ → SleeperErrorCategory
category_of status =
    if status == 429
    then rate_limit
    else if status == 404
    then not_found
    else if leb 500 status
    then server
    else client

-- The `try` block after the request, with what the `catch` block makes of an error.
unfoldable pub read_reply {ℓ} :
    {A : Type ℓ} → (String → Option ℕ) → (A → Bool) → ℕ → Reply A → Outcome A
unfolding category_of
read_reply parse_date validate now timed_out =
    threw record { status = 503; category = timeout; retryable = true; retry_after_ms = none }
read_reply parse_date validate now failed =
    threw record { status = 503; category = network; retryable = true; retry_after_ms = none }
read_reply parse_date validate now (answered status header body) =
    if not (leb 200 status && ltb status 300)
    then threw record {
      status = status;
      category = category_of status;
      retryable = status == 429 || leb 500 status;
      retry_after_ms = parse_retry_after parse_date header now;
    }
    else elim body [
      | none ↦
          threw record { status = 503; category = network; retryable = true; retry_after_ms = none }
      | some value ↦
          if validate value
          then returned value
          else threw record {
            status = 502;
            category = validation;
            retryable = false;
            retry_after_ms = none;
          }
    ]

pub data Event : Type 0 where
  -- a request with its time limit, a wait, a report to the observer
  fetch sleep : ℕ → Event
  observe : SleeperCallObservation → Event

pub data Decision : Type 0 where
  give_up : Decision
  pause : ℕ → Decision

-- Whether a failed attempt is the last one; `at` is the time since the call began.
unfoldable pub after_failure : Options → ℕ → ℕ → SleeperApiError → Decision
after_failure o attempt at e =
    let wait = or_else e.retry_after_ms (o.backoff_ms * 2 ^ attempt) in
    if not e.retryable || leb o.max_retries attempt
    then give_up
    else if ltb o.max_retry_after_ms wait
    then give_up
    else if leb o.max_elapsed_ms (at + wait)
    then give_up
    else pause wait

unfoldable pub next_of {ℓ} : {A : Type ℓ} → Options → ℕ → ℕ → Outcome A → Decision
unfolding after_failure
next_of o attempt at (returned value) = give_up
next_of o attempt at (threw e) = after_failure o attempt at e

unfoldable pub observation {ℓ} : {A : Type ℓ} → String → ℕ → ℕ → Outcome A → SleeperCallObservation
observation endpoint attempts duration (returned value) = record {
  endpoint = endpoint;
  succeeded = true;
  attempts = attempts;
  duration_ms = duration;
  category = none;
  status = none;
}
observation endpoint attempts duration (threw e) = record {
  endpoint = endpoint;
  succeeded = false;
  attempts = attempts;
  duration_ms = duration;
  category = some e.category;
  status = some e.status;
}

-- A finished call: what it did in order, how it ended, and when.
pub record Call {ℓ} (A : Type ℓ) : Type ℓ where
  pub trace : List Event
  pub outcome : Outcome A
  pub ended : ℕ

abbrev pub after {ℓ} : {A : Type ℓ} → List Event → Option (Call A) → Option (Call A)
after events none = none
after events (some c) = some (record c { trace = events ++ c.trace })

abbrev pub settle {ℓ} : {A : Type ℓ} → Decision → Call A → (ℕ → Option (Call A)) → Option (Call A)
settle give_up last retry = some last
settle (pause wait) last retry = retry wait

-- `remaining` and `timeoutMs`
abbrev pub attempt_timeout : Options → ℕ → ℕ
attempt_timeout o elapsed = max 1 (min o.timeout_ms (o.max_elapsed_ms - elapsed))

-- The parameters: `exchange attempt timeout` is the reply and the time it took, `late attempt` what
-- the timer of the wait after that attempt took too long.
module _ {ℓ} {A : Type ℓ} (o : Options) (parse_date : String → Option ℕ) (validate : A → Bool)
    (endpoint : String) (started_at : ℕ) (exchange : ℕ → ℕ → Reply A × ℕ) (late : ℕ → ℕ) where
  -- The loop of `get`, on fuel, from an attempt that starts `elapsed` after the call
  unfoldable pub get_from : ℕ → ℕ → ℕ → Option (Call A)
  get_from zero attempt elapsed = none
  get_from (suc fuel) attempt elapsed =
      let limit = attempt_timeout o elapsed in
      let answer = exchange attempt limit in
      let at = elapsed + answer.1 in
      let outcome = read_reply parse_date validate (started_at + at) answer.0 in
      settle (next_of o attempt at outcome)
        (record {
          trace = fetch limit ∷ observe (observation endpoint (attempt + 1) at outcome) ∷ [];
          outcome = outcome;
          ended = at;
        })
        λ wait.
          after (fetch limit ∷ sleep wait ∷ [])
            (get_from fuel (suc attempt) (at + wait + late attempt))

  -- `get`; the loop makes no more attempts than this
  unfoldable pub get : Option (Call A)
  unfolding get_from
  get = get_from (o.max_retries + 1) 0 0
