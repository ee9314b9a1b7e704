-- ===== src/Scheduler/Week.antt =====
-- apps/api/src/scheduler/week.ts: which season and week a league is synchronized for, and whether it
-- is over. A season is a text of four digits, which the code compares by its number: a season that has
-- passed the test is that number here.
use Prim.Native.Char.{code}
use sleeper_ff.Prelude.{
  ℕ, ◌+◌, ◌-◌, ◌*◌, ◌≤◌, ◌<◌, ◌≡◌, ◌∙◌, sym, min, max, Bool, true, false, ◌&&◌, String, Option,
  none, some, ltb, leb, ◌==◌, str_eq, if◌then◌else◌, or_else, or_option, arith, zero, suc,
}
use sleeper_ff.Prelude.Text.{trim}
use sleeper_ff.Records.{Stamp, League, LeagueConnection}
use sleeper_ff.Scheduler.Calendar.{CalendarEnv, NflWeek, current_nfl_week}

abbrev pub first_week : ℕ
first_week = 1

abbrev pub final_week : ℕ
final_week = 18

pub data WeekSource : Type 0 where
  league_settings calendar persisted last : WeekSource

pub record SyncTarget : Type 0 where
  pub season : ℕ
  pub week : ℕ
  pub source : WeekSource

-- The number of exactly `n` decimal digits, read onto `acc`: /^\d{4}$/ for four, with `Number`.
unfoldable digits_of : ℕ → ℕ → String → Option ℕ
digits_of zero acc String.[] = some acc
digits_of zero acc (String.◌∷◌ c s) = none
digits_of (suc n) acc String.[] = none
digits_of (suc n) acc (String.◌∷◌ c s) =
    let rest = digits_of n (acc * 10 + (code c - 48)) s in
    if leb 48 (code c) && leb (code c) 57 then rest else none

unfoldable pub season : Option String → Option ℕ
unfolding digits_of
season none = none
season (some value) = digits_of 4 0 (trim value)

abbrev week : Option ℕ → Option ℕ
week none = none
week (some n) = if leb first_week n && leb n final_week then some n else none

abbrev clamp : ℕ → ℕ
clamp n = min final_week (max first_week n)

abbrev season_of_league : Option League → Option ℕ
season_of_league none = none
season_of_league (some l) = season (some l.season)

abbrev leg_of : Option League → Option ℕ
leg_of none = none
leg_of (some l) = week l.settings_leg

abbrev season_of_connection : Option LeagueConnection → Option ℕ
season_of_connection none = none
season_of_connection (some c) = season c.season

abbrev week_of_connection : Option LeagueConnection → Option ℕ
week_of_connection none = none
week_of_connection (some c) = week c.week

abbrev held_week : ℕ → Option ℕ → SyncTarget
held_week target none = record { season = target; week = final_week; source = last }
held_week target (some w) = record { season = target; week = w; source = persisted }

abbrev current_week : ℕ → NflWeek → Option ℕ → SyncTarget
current_week target cal none = record { season = target; week = clamp cal.week; source = calendar }
current_week target cal (some w) = record { season = target; week = w; source = league_settings }

-- `resolveSyncTarget`, by the calendar's season and week
unfoldable pub target_for : Option League → Option LeagueConnection → NflWeek → SyncTarget
unfolding season
target_for league connection cal =
    let target =
      or_else (or_option (season_of_league league) (season_of_connection connection)) cal.season in
    if ltb cal.season target
    then record { season = target; week = first_week; source = calendar }
    else if ltb target cal.season
    then held_week target (or_option (week_of_connection connection) (leg_of league))
    else current_week target cal (leg_of league)

unfoldable pub resolve_sync_target :
    Option League → Option LeagueConnection → Stamp → CalendarEnv → SyncTarget
unfolding target_for
resolve_sync_target league connection now env =
    target_for league connection (current_nfl_week now env)

abbrev over : NflWeek → Option ℕ → Bool → Bool
over cal none complete = false
over cal (some s) complete =
    if ltb s cal.season then true else ((s == cal.season) && complete) && leb final_week cal.week

abbrev is_complete : Option League → Bool
is_complete none = false
is_complete (some l) = str_eq l.status "complete"

-- `leagueIsHistorical`
unfoldable pub league_is_historical : Option League → Stamp → CalendarEnv → Bool
unfolding season
league_is_historical league now env =
    over (current_nfl_week now env) (season_of_league league) (is_complete league)

record InSeason (t : SyncTarget) : Type 0 where
  low : first_week ≤ t.week
  high : t.week ≤ final_week

if-InSeason :
    (b : Bool) (t u : SyncTarget) → InSeason t → InSeason u → InSeason (if b then t else u)
if-InSeason true t u h h' = h
if-InSeason false t u h h' = h'

-- A week that passed the test, or none.
InBounds : Option ℕ → Type 0
InBounds none = Unit
InBounds (some n) = (first_week ≤ n) × (n ≤ final_week)

week_lem : (o : Option ℕ) → InBounds (week o)
unfolding InBounds
week_lem none = tt
week_lem (some n) = ground arith

or_option-InBounds : (a b : Option ℕ) → InBounds a → InBounds b → InBounds (or_option a b)
unfolding InBounds
or_option-InBounds none b h h' = h'
or_option-InBounds (some n) b h h' = h

leg_of-InBounds : (league : Option League) → InBounds (leg_of league)
unfolding InBounds
leg_of-InBounds none = tt
leg_of-InBounds (some l) = week_lem l.settings_leg

week_of_connection-InBounds : (c : Option LeagueConnection) → InBounds (week_of_connection c)
unfolding InBounds
week_of_connection-InBounds none = tt
week_of_connection-InBounds (some c) = week_lem c.week

held_week-InSeason : (target : ℕ) (o : Option ℕ) → InBounds o → InSeason (held_week target o)
unfolding InBounds
held_week-InSeason target none h = record { low = omega arith; high = omega arith }
held_week-InSeason target (some w) h = record { low = h.0; high = h.1 }

current_week-InSeason :
    (target : ℕ) (cal : NflWeek) (o : Option ℕ) → InBounds o → InSeason (current_week target cal o)
unfolding InBounds
current_week-InSeason target cal none h = record { low = ground arith; high = ground arith }
current_week-InSeason target cal (some w) h = record { low = h.0; high = h.1 }

first-InSeason :
    (target : ℕ) → InSeason (record { season = target; week = first_week; source = calendar })
first-InSeason target = record { low = omega arith; high = omega arith }

target_for-InSeason :
    (league : Option League) (c : Option LeagueConnection) (cal : NflWeek)
    → InSeason (target_for league c cal)
unfolding target_for
target_for-InSeason league c cal =
    let target =
      or_else (or_option (season_of_league league) (season_of_connection c)) cal.season in
    let weeks = or_option (week_of_connection c) (leg_of league) in
    if-InSeason (ltb cal.season target) _ _ (first-InSeason target) (
      if-InSeason (ltb target cal.season) _ _
        (held_week-InSeason target weeks (
          or_option-InBounds (week_of_connection c) (leg_of league) (week_of_connection-InBounds c)
            (leg_of-InBounds league)))
        (current_week-InSeason target cal (leg_of league) (leg_of-InBounds league)))

-- Whatever is stored of a league and its connection, and whatever the calendar says, the week that a
-- league is synchronized for is one of the regular season: 1 to 18.
pub resolve_sync_target-bounds :
    (league : Option League) (connection : Option LeagueConnection) (now : Stamp)
    (env : CalendarEnv)
    → (first_week ≤ (resolve_sync_target league connection now env).week)
      × ((resolve_sync_target league connection now env).week ≤ final_week)
unfolding resolve_sync_target
resolve_sync_target-bounds league connection now env =
    let h = target_for-InSeason league connection (current_nfl_week now env) in (h.low, h.high)

past-target :
    (l : League) (c : Option LeagueConnection) (cal : NflWeek) (year : ℕ)
    → season (some l.season) ≡ some year
    → year < cal.season
    → target_for (some l) c cal
      ≡ held_week year (or_option (week_of_connection c) (leg_of (some l)))
unfolding target_for
past-target l c cal year s before = rw s (ground arith)

-- A league whose season the calendar has left is historical, and it is synchronized for the same week
-- whenever that is done: its target depends on neither of two later instants.
pub past_season_is_fixed :
    (l : League) (connection : Option LeagueConnection) (now later : Stamp) (env env' : CalendarEnv)
    (year : ℕ)
    → season (some l.season) ≡ some year
    → year < (current_nfl_week now env).season
    → year < (current_nfl_week later env').season
    → (league_is_historical (some l) now env ≡ true)
      × (resolve_sync_target (some l) connection now env
          ≡ resolve_sync_target (some l) connection later env')
unfolding resolve_sync_target league_is_historical
past_season_is_fixed l connection now later env env' year s before before' = (
  rw s (ground arith),
  past-target l connection _ year s before ∙ (sym (past-target l connection _ year s before')),
)
