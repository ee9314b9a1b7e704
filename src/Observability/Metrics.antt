-- ===== src/Observability/Metrics.antt =====
-- apps/api/src/observability/metrics.ts: counters and gauges over a bounded number of series. The
-- amounts that the program adds are counts, so values are ℕ; rendering, histograms and the registry
-- are not modelled.
use Prim.Native.String.{◌++◌ as concat}
use sleeper_ff.Prelude.{
  ℕ, suc, ◌+◌, ◌≤◌, ◌≡◌, refl, arith, String, Bool, true, false, Option, none, some, List, [], ◌∷◌,
  map, length, leb, eq_iff, if◌then◌else◌, or_else, is_some,
}
use sleeper_ff.Prelude.Assoc.{Assoc, lookup, insert, lookup-insert}

abbrev pub max_series : ℕ
max_series = 500

abbrev pub overflow_key : String
overflow_key = " overflow"

join_space : List String → String
join_space [] = ""
join_space (p ∷ []) = p
join_space (p ∷ q ∷ ps) = concat p (concat " " (join_space (q ∷ ps)))

-- `keyOf`
unfoldable pub key_of : Assoc String → List String → String
unfolding join_space
key_of labels names =
    join_space (map (λ name. concat name (concat "=" (or_else (lookup name labels) ""))) names)

-- A `Metric` with its label names: the value of each series, by its key. A series' labels are written
-- out in its key.
pub record Metric : Type 0 where
  pub label_names : List String
  pub series : Assoc ℕ
  pub overflowed : Bool

-- The key under which `slot` files an observation
abbrev pub slot_key : String → Metric → Option ℕ → String
slot_key key m (some held) = key
slot_key key m none = if leb max_series (length m.series) then overflow_key else key

abbrev pub overflows : Metric → Option ℕ → Bool
overflows m (some held) = m.overflowed
overflows m none = if leb max_series (length m.series) then true else m.overflowed

abbrev pub updated : (ℕ → ℕ) → String → Bool → Metric → Metric
updated f key overflowed m = record m {
  series = insert key (f (or_else (lookup key m.series) 0)) m.series;
  overflowed = overflowed;
}

-- `this.slot(labels).value = f(value)`
unfoldable pub update : (ℕ → ℕ) → String → Metric → Metric
update f key m =
    let held = lookup key m.series in updated f (slot_key key m held) (overflows m held) m

-- `inc(labels, by)`
abbrev pub inc : Assoc String → ℕ → Metric → Metric
inc labels by m = update (λ value. value + by) (key_of labels m.label_names) m

-- `set(labels, value)` of a gauge
abbrev pub set : Assoc String → ℕ → Metric → Metric
set labels value m = update (λ old. value) (key_of labels m.label_names) m

-- `value(labels)`
abbrev pub value_of : Assoc String → Metric → ℕ
value_of labels m = or_else (lookup (key_of labels m.label_names) m.series) 0

-- `reset`
abbrev pub reset : Metric → Metric
reset m = record m { series = []; overflowed = false }

-- What was counted in all
unfoldable pub total : Assoc ℕ → ℕ
total [] = 0
total ((key, value) ∷ series) = value + total series

total-insert :
    (key : String) (v : ℕ) (series : Assoc ℕ)
    → total (insert key v series) + or_else (lookup key series) 0 ≡ total series + v
unfolding total insert lookup
total-insert key v [] = omega arith
total-insert key v ((own, held) ∷ series) = ground (arith, total-insert key v series)

length-insert :
    (key : String) (v : ℕ) (series : Assoc ℕ)
    → length (insert key v series)
      ≡ (if is_some (lookup key series) then length series else suc (length series))
unfolding insert lookup
length-insert key v [] = refl
length-insert key v ((own, held) ∷ series) = ground (arith, length-insert key v series)

-- At most `MAX_SERIES` series, and one more only where that is the overflow's.
abbrev pub allowed : Assoc ℕ → ℕ
allowed series = max_series + (if is_some (lookup overflow_key series) then 1 else 0)

abbrev pub IsBounded : Metric → Type 0
IsBounded m = length m.series ≤ allowed m.series

-- An increment counts: whatever the labels, and whether or not a series is left for them, the sum of
-- all series grows by exactly the amount, so what overflows is counted and not lost.
pub total-inc :
    (labels : Assoc String) (by : ℕ) (m : Metric)
    → total (inc labels by m).series ≡ total m.series + by
unfolding update
total-inc labels by m =
    let key = key_of labels m.label_names in
    let filed = slot_key key m (lookup key m.series) in
    let old = or_else (lookup filed m.series) 0 in
    omega (arith, total-insert filed (old + by) m.series)

-- Whatever observations are filed, with whatever labels, a metric holds at most `MAX_SERIES` series and
-- the one that counts the overflow.
pub update-IsBounded :
    (f : ℕ → ℕ) (key : String) (m : Metric) → IsBounded m → IsBounded (update f key m)
unfolding update
update-IsBounded f key m bound =
    let filed = slot_key key m (lookup key m.series) in
    let value = f (or_else (lookup filed m.series) 0) in
    ground (
      arith,
      length-insert filed value m.series,
      lookup-insert filed overflow_key value m.series,
      eq_iff filed overflow_key,
    )
