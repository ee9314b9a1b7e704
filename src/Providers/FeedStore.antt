-- ===== src/Providers/FeedStore.antt =====
-- apps/api/src/providers/feed-store.ts: the retained feed, and whether it still answers. The repository
-- is the one in memory; the file under the other one is not modelled.
use sleeper_ff.Prelude.{
  ℕ, ◌≡◌, refl, arith, String, Bool, true, false, not, ◌&&◌, ◌||◌, Option, none, some, str_eq, ◌==◌,
  if◌then◌else◌,
}
use sleeper_ff.Records.{Stamp}
use sleeper_ff.Providers.ServiceLevel.{ServiceLevel, is_stale}

-- The fields of `WaiverSignals` that are read here, and a text for the others
pub record Feed : Type 0 where
  pub season : String
  pub week : ℕ
  pub players : ℕ
  pub body : String

-- `ingested_at` is that of the provenance, `none` where it cannot be read.
pub record StoredFeed : Type 0 where
  pub ingested_at : Option Stamp
  pub report : String
  pub feed : Feed

pub record FeedState : Type 0 where
  pub stale : Bool
  pub matches_request : Bool
  pub players : ℕ
  pub report : String

abbrev pub is_season : String → Option String → Bool
is_season own none = true
is_season own (some season) = str_eq own season

abbrev pub is_week : ℕ → Option ℕ → Bool
is_week own none = true
is_week own (some week) = own == week

-- `state`
unfoldable pub state_of :
    ServiceLevel → Stamp → Option String → Option ℕ → Option StoredFeed → Option FeedState
unfolding is_stale
state_of level now season week none = none
state_of level now season week (some stored) = some record {
  stale = is_stale stored.ingested_at level now;
  matches_request = is_season stored.feed.season season && is_week stored.feed.week week;
  players = stored.feed.players;
  report = stored.report;
}

-- `load`
unfoldable pub load : ServiceLevel → Stamp → String → ℕ → Option StoredFeed → Option Feed
load level now season week none = none
load level now season week (some stored) =
    if not (str_eq stored.feed.season season) || not (stored.feed.week == week)
    then none
    else if is_stale stored.ingested_at level now
    then none
    else some stored.feed

-- `publish`
abbrev pub publish : StoredFeed → Option StoredFeed → Option StoredFeed
publish value held = some value

abbrev pub serves : Option FeedState → Bool
serves none = false
serves (some state) = state.matches_request && not state.stale

abbrev pub feed_of : Option StoredFeed → Option Feed
feed_of none = none
feed_of (some stored) = some stored.feed

-- What the engines load agrees with what the operator is shown: the retained feed is served exactly
-- where its state for that season and week matches the request and is not stale, and nothing else is.
pub load-state_of :
    (level : ServiceLevel) (now : Stamp) (season : String) (week : ℕ) (held : Option StoredFeed)
    → load level now season week held
      ≡ (if serves (state_of level now (some season) (some week) held) then feed_of held else none)
unfolding load state_of
load-state_of level now season week none = refl
load-state_of level now season week (some stored) = ground arith
