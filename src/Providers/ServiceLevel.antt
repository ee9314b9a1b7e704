-- ===== src/Providers/ServiceLevel.antt =====
-- apps/api/src/providers/service-level.ts: whether an ingestion was good enough to rely on. A rate is
-- the fraction that it is computed as, and a level's rate is a fraction; the texts of a breach are not
-- modelled. A source's timestamp that cannot be read is `none`.
use sleeper_ff.Prelude.{
  ℕ, ◌+◌, ◌*◌, ◌≡◌, refl, ◌↔◌, arith, Bool, true, false, not, ◌&&◌, ◌||◌, Option, none, some, List,
  [], ◌∷◌, ◌++◌, ltb, if◌then◌else◌, any, ◌∙◌,
}
use sleeper_ff.Records.{Stamp}

pub data IngestionStatus : Type 0 where
  published rejected failed : IngestionStatus

pub data BreachKind : Type 0 where
  coverage freshness identity schema volume : BreachKind

pub data Severity : Type 0 where
  warning critical : Severity

pub record ServiceLevelBreach : Type 0 where
  pub kind : BreachKind
  pub severity : Severity

-- A rate in thousandths
pub record ServiceLevel : Type 0 where
  pub min_identity_match_rate : ℕ
  pub max_source_age_ms : ℕ
  pub max_ingestion_age_ms : ℕ
  pub require_complete_coverage : Bool
  pub min_players : ℕ

abbrev pub default_service_level : ServiceLevel
default_service_level = record {
  min_identity_match_rate = 950;
  max_source_age_ms = 6 * 60 * 60000;
  max_ingestion_age_ms = 12 * 60 * 60000;
  require_complete_coverage = false;
  min_players = 300;
}

-- The fields of an `IngestionReport` that are graded: `source_timestamp` is that of the provenance, and
-- `is_complete` that of the coverage, where they are there.
pub record IngestionReport : Type 0 where
  pub status : IngestionStatus
  pub is_valid : Bool
  pub players : ℕ
  pub identity_total : ℕ
  pub identity_resolved : ℕ
  pub source_timestamp : Option Stamp
  pub is_complete : Option Bool

abbrev pub is_failed : IngestionStatus → Bool
is_failed published = false
is_failed rejected = false
is_failed failed = true

abbrev pub breach_if : Bool → BreachKind → Severity → List ServiceLevelBreach
breach_if b k v = if b then record { kind = k; severity = v } ∷ [] else []

abbrev pub critical_if : Bool → Severity
critical_if b = if b then critical else warning

-- `report.identity.total > 0 && report.identity.rate < level`, the rate a tenth of `tenths` of it
abbrev pub is_below : IngestionReport → ServiceLevel → ℕ → Bool
is_below r level tenths =
    ltb 0 r.identity_total
    && ltb (r.identity_resolved * 1000 * 10)
        (r.identity_total * level.min_identity_match_rate * tenths)

-- How old the source's timestamp is, compared with so many times the greatest age
abbrev pub is_older : ℕ → ServiceLevel → Stamp → Option Stamp → Bool
is_older times level now none = false
is_older times level now (some at) = ltb (at + level.max_source_age_ms * times) now

abbrev pub is_incomplete : Option Bool → Bool
is_incomplete none = false
is_incomplete (some complete) = not complete

abbrev pub is_too_few : IngestionReport → ServiceLevel → Bool
is_too_few r level = not (is_failed r.status) && ltb r.players level.min_players

-- `evaluateServiceLevel`
unfoldable pub evaluate_service_level :
    IngestionReport → ServiceLevel → Stamp → List ServiceLevelBreach
evaluate_service_level r level now =
    breach_if (not r.is_valid) schema critical
    ++ breach_if (is_too_few r level) volume critical
    ++ breach_if (is_below r level 10) identity (critical_if (is_below r level 8))
    ++ breach_if (is_older 1 level now r.source_timestamp) freshness
        (critical_if (is_older 2 level now r.source_timestamp))
    ++ breach_if (is_incomplete r.is_complete) coverage
        (critical_if level.require_complete_coverage)

abbrev pub is_critical : ServiceLevelBreach → Bool
is_critical b = elim b.severity [ critical ↦ true | warning ↦ false ]

-- `highestSeverity`
unfoldable pub highest_severity : List ServiceLevelBreach → Severity
highest_severity breaches = if any is_critical breaches then critical else warning

any-append {ℓ} :
    {A : Type ℓ} (p : A → Bool) (front back : List A)
    → any p (front ++ back) ≡ (any p front || any p back)
any-append p [] back = refl
any-append p (a ∷ front) back = ground (arith, any-append p front back)

any-breach_if :
    (b : Bool) (k : BreachKind) (c : Bool)
    → any is_critical (breach_if b k (critical_if c)) ≡ (b && c)
any-breach_if true k true = refl
any-breach_if true k false = refl
any-breach_if false k c = refl

any_of_five :
    (a b c d e : List ServiceLevelBreach)
    → any is_critical (a ++ b ++ c ++ d ++ e) ≡ (
        any is_critical a
        || any is_critical b
        || any is_critical c
        || any is_critical d
        || any is_critical e)
any_of_five a b c d e = ground (
  arith,
  any-append is_critical (a ++ b ++ c ++ d) e,
  any-append is_critical (a ++ b ++ c) d,
  any-append is_critical (a ++ b) c,
  any-append is_critical a b,
)

is_below-le :
    (r : IngestionReport) (level : ServiceLevel)
    → (is_below r level 10 && is_below r level 8) ≡ is_below r level 8
is_below-le r level = ground arith

is_older-le :
    (level : ServiceLevel) (now : Stamp) (o : Option Stamp)
    → (is_older 1 level now o && is_older 2 level now o) ≡ is_older 2 level now o
is_older-le level now none = refl
is_older-le level now (some at) = ground arith

any-evaluate_service_level :
    (r : IngestionReport) (level : ServiceLevel) (now : Stamp)
    → any is_critical (evaluate_service_level r level now) ≡ (
        not r.is_valid
        || is_too_few r level
        || is_below r level 8
        || is_older 2 level now r.source_timestamp
        || is_incomplete r.is_complete && level.require_complete_coverage)
unfolding evaluate_service_level
any-evaluate_service_level r level now =
    let invalid = not r.is_valid in
    let few = is_too_few r level in
    let older = is_older 2 level now r.source_timestamp in
    let open_ends = is_incomplete r.is_complete in
    any_of_five (breach_if invalid schema critical) (breach_if few volume critical)
      (breach_if (is_below r level 10) identity (critical_if (is_below r level 8)))
      (breach_if (is_older 1 level now r.source_timestamp) freshness (critical_if older))
      (breach_if open_ends coverage (critical_if level.require_complete_coverage))
    ∙ rw
        (
          any-breach_if invalid schema true,
          any-breach_if few volume true,
          any-breach_if (is_below r level 10) identity (is_below r level 8),
          any-breach_if (is_older 1 level now r.source_timestamp) freshness older,
          any-breach_if open_ends coverage level.require_complete_coverage,
          is_below-le r level,
          is_older-le level now r.source_timestamp,
        )
        (ground arith)

-- The highest severity of an ingestion's breaches is critical exactly where its feed is invalid or too
-- small, where less than eight tenths of the required share of its players were identified, where its
-- source is twice as old as allowed, or where coverage is required and incomplete.
pub highest_severity-evaluate_service_level :
    (r : IngestionReport) (level : ServiceLevel) (now : Stamp)
    → (highest_severity (evaluate_service_level r level now) ≡ critical) ↔ (
        (not r.is_valid
          || is_too_few r level
          || is_below r level 8
          || is_older 2 level now r.source_timestamp
          || is_incomplete r.is_complete && level.require_complete_coverage)
        ≡ true)
unfolding highest_severity
highest_severity-evaluate_service_level r level now =
    ground (arith, any-evaluate_service_level r level now)

-- `stalenessOf(...).stale`, of a time of ingestion that `Date.parse` reads
unfoldable pub is_stale : Option Stamp → ServiceLevel → Stamp → Bool
is_stale none level now = true
is_stale (some at) level now = ltb (at + level.max_ingestion_age_ms) now
