-- ===== src/RateLimit.antt =====
-- apps/api/src/rate-limit.ts: fixed-window request budgets, charged to an address, a session and a
-- subject at once. The module's two variables (`windows`, `sweptAt`) are the record `Limiter`, and
-- `Date.now()` is an argument; of an Express request the model has the fields that the file reads.
pub mod Budget
pub mod Sweeping
pub mod Answers
pub mod Windows
pub mod Address
use sleeper_ff.Prelude.{
  ℕ, ◌+◌, ◌-◌, ◌/◌, max, String, Bool, not, ◌&&◌, Option, none, some, List, [], ◌∷◌, ◌++◌, ltb, leb,
  if◌then◌else◌, or_else, length, take, drop, find,
}
use sleeper_ff.Prelude.Assoc.{Assoc, lookup, insert, remove, remove_if}
use sleeper_ff.Prelude.Text.{colon, strip_prefix, has_char, split, join_colon}
use Prim.Native.String.{◌++◌ as concat}

pub record Window : Type 0 where
  pub start : ℕ
  pub count : ℕ

pub record Limiter : Type 0 where
  pub windows : Assoc Window
  pub swept_at : ℕ

abbrev pub max_tracked_keys : ℕ
max_tracked_keys = 20000

abbrev pub idle_ms : ℕ → ℕ
idle_ms window_ms = max window_ms 60000

-- `now - value.start >= Math.max(windowMs, 60_000)`
abbrev pub is_old : ℕ → ℕ → Window → Bool
is_old now window_ms w = leb (w.start + idle_ms window_ms) now

cap : Assoc Window → Assoc Window
cap ws = if leb max_tracked_keys (length ws) then drop (length ws - max_tracked_keys + 1) ws else ws

unfoldable pub sweep : ℕ → ℕ → Limiter → Limiter
unfolding cap
sweep now window_ms l =
    if ltb now (l.swept_at + 60000) && ltb (length l.windows) max_tracked_keys
    then l
    else record { windows = cap (remove_if (is_old now window_ms) l.windows); swept_at = now }

-- The fields of a request and of `res.locals` that the budgets are charged to.
pub record Request : Type 0 where
  pub ip : Option String
  pub remote_address : Option String
  pub session_family : Option String
  pub login : Option String

unfoldable pub client_address : Request → String
client_address req =
    let raw = or_else req.ip (or_else req.remote_address "unknown") in
    let address = or_else (strip_prefix "::ffff:" raw) raw in
    let groups = split b':' address in
    if not (has_char b':' address)
    then address
    else if ltb 4 (length groups)
    then concat (join_colon (take 4 groups)) "::/64"
    else address

unfoldable pub session_key : Request → String
session_key req = elim req.session_family [
  | some family ↦ concat "session:" family
  | none ↦ concat "address:" (client_address req)
]

pub record RateLimitScope : Type 0 where
  pub max : ℕ
  pub key : Request → String
  pub name : String

pub record Subject : Type 0 where
  pub max : ℕ
  pub key : Request → String

pub record RateLimitOptions : Type 0 where
  pub bucket : String
  pub window_ms : ℕ
  pub per_address : Option ℕ
  pub per_session : Option ℕ
  pub per_subject : Option Subject
  pub message : Option String

pub record Charge : Type 0 where
  pub scope : String
  pub limit : ℕ
  pub remaining : ℕ
  pub reset_seconds : ℕ
  pub exceeded : Bool

-- The window that a charge counts in: the one stored, or a new one where that has run out.
unfoldable pub opened : ℕ → ℕ → Option Window → Option Window
opened now window_ms none = none
opened now window_ms (some w) = if ltb now (w.start + window_ms) then some w else none

-- The object in the map is the one that is counted up, so a live window keeps its place; a new one
-- is deleted first and goes last.
unfoldable pub place : ℕ → String → Option Window → Assoc Window → Window × Assoc Window
place now id (some w) ws =
    let w' : Window = record w { count = w.count + 1 } in (w', insert id w' ws)
place now id none ws =
    let w' : Window = record { start = now; count = 1 } in (w', insert id w' (remove id ws))

abbrev ceil_seconds : ℕ → ℕ
ceil_seconds ms = (ms + 999) / 1000

abbrev report : ℕ → ℕ → ℕ → String → Window → Charge
report now limit window_ms scope w = record {
  scope = scope;
  limit = limit;
  remaining = limit - w.count;
  reset_seconds = max 1 (ceil_seconds (w.start + window_ms - now));
  exceeded = ltb limit w.count;
}

unfoldable pub charge : ℕ → String → ℕ → ℕ → String → Limiter → Charge × Limiter
unfolding opened place
charge now id limit window_ms scope l =
    let (w, ws) = place now id (opened now window_ms (lookup id l.windows)) l.windows in
    (report now limit window_ms scope w, record l { windows = ws })

abbrev scope_if : Option ℕ → (Request → String) → String → List RateLimitScope
scope_if none key name = []
scope_if (some limit) key name = record { max = limit; key = key; name = name } ∷ []

abbrev subject_scope : Option Subject → List RateLimitScope
subject_scope none = []
subject_scope (some s) = record { max = s.max; key = s.key; name = "subject" } ∷ []

-- The scopes that `rateLimit` collects; an empty list makes it throw.
unfoldable pub scopes_of : RateLimitOptions → List RateLimitScope
unfolding client_address session_key
scopes_of o =
    scope_if o.per_address client_address "address"
    ++ (scope_if o.per_session session_key "session" ++ subject_scope o.per_subject)

abbrev pub charge_id : String → RateLimitScope → Request → String
charge_id bucket s req = colon bucket (colon s.name (s.key req))

unfoldable pub charge_all :
    ℕ → RateLimitOptions → Request → List RateLimitScope → Limiter → List Charge × Limiter
charge_all now o req [] l = ([], l)
charge_all now o req (s ∷ ss) l =
    let (c, l') = charge now (charge_id o.bucket s req) s.max o.window_ms s.name l in
    let (cs, l'') = charge_all now o req ss l' in (c ∷ cs, l'')

-- `charges.reduce((worst, entry) => entry.remaining < worst.remaining ? entry : worst)`
unfoldable pub tightest : Charge → List Charge → Charge
tightest worst [] = worst
tightest worst (c ∷ cs) = tightest (if ltb c.remaining worst.remaining then c else worst) cs

pub data Answer : Type 0 where
  -- the refusal's message and `Retry-After`, and the scope that its metric counts
  refused : String → ℕ → String → Answer
  passed : Answer

pub record Response : Type 0 where
  pub limit : ℕ
  pub remaining : ℕ
  pub reset : ℕ
  pub answer : Answer

abbrev pub default_message : String
default_message = "Too many requests. Try again later."

unfoldable answer : RateLimitOptions → Option Charge → Answer
answer o none = passed
answer o (some c) = refused (or_else o.message default_message) c.reset_seconds c.scope

unfoldable respond : RateLimitOptions → Charge → List Charge → Response
unfolding answer
respond o c cs =
    let t = tightest c cs in
    record {
      limit = t.limit;
      remaining = t.remaining;
      reset = t.reset_seconds;
      answer = answer o (find (λ (e : Charge). e.exceeded) (c ∷ cs));
    }

-- `none` is the error that `rateLimit` throws when no budget is named.
unfoldable finish : RateLimitOptions → List Charge → Limiter → Option (Response × Limiter)
finish o [] l = none
finish o (c ∷ cs) l = some (respond o c cs, l)

-- The handler that `rateLimit` returns.
unfoldable pub rate_limit : RateLimitOptions → ℕ → Request → Limiter → Option (Response × Limiter)
unfolding respond finish
rate_limit o now req l =
    let (cs, l') = charge_all now o req (scopes_of o) (sweep now o.window_ms l) in finish o cs l'
