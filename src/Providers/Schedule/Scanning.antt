-- ===== src/Providers/Schedule/Scanning.antt =====
-- `nextRun` of apps/api/src/providers/schedule.ts finds the first minute that a window calls for.
use sleeper_ff.Prelude.{
  ℕ, zero, suc, ◌+◌, ◌*◌, ◌%◌, ◌==◌, String, length, any, true, [], ◌∷◌, ◌≤◌, ◌<◌, ◌≡◌, refl, ap,
  ◌∙◌, inl, inr, none, some, List, arith, Option-cases, Bool, take, find, or_else, ◌++◌, Bool-cases,
}
use sleeper_ff.Providers.Schedule.{
  ScheduleWindow, Parts, window_at, Run, run_or, scan, local_time, matches, index_or_zero,
  default_windows, next_run, next_minute, LocalTime, hhmm, day_names,
}

module _ (format : ℕ → Parts) (windows : List ScheduleWindow) where
  -- A run at one of the minutes from `start` to the `k`-th after it, in the window it names
  abbrev pub IsFound : ℕ → ℕ → Run → Type 0
  IsFound start k run =
      (m : ℕ) × (m ≤ k)
      × (run.date ≡ start + m * 60000)
      × (window_at format windows run.date ≡ some run.window)

  run_or-none :
      (steps start : ℕ)
      → window_at format windows start ≡ none
      → scan format windows (suc steps) start ≡ scan format windows steps (start + 60000)
  unfolding scan
  run_or-none steps start e = ap (λ o. run_or start o (scan format windows steps (start + 60000))) e

  run_or-some :
      (steps start : ℕ) {w : ScheduleWindow}
      → window_at format windows start ≡ some w
      → scan format windows (suc steps) start ≡ some record { date = start; window = w }
  unfolding scan
  run_or-some steps start e = ap (λ o. run_or start o (scan format windows steps (start + 60000))) e

  scan_finds :
      (steps start k : ℕ) {w : ScheduleWindow}
      → k < steps
      → window_at format windows (start + k * 60000) ≡ some w
      → (run : Run) × (scan format windows steps start ≡ some run) × IsFound start k run
  scan_finds zero start k h e = absurd (omega arith)
  scan_finds (suc steps) start zero {w} h e =
      let here : window_at format windows start ≡ some w =
        ap (window_at format windows) (omega arith) ∙ e in
      (
        record { date = start; window = w },
        run_or-some steps start here,
        (0, omega arith, omega arith, here),
      )
  scan_finds (suc steps) start (suc k) {w} h e =
      elim (Option-cases (window_at format windows start)) [
        | inr (first, found) ↦ (
          record { date = start; window = first },
          run_or-some steps start found,
          (0, omega arith, omega arith, found),
        )
        | inl missed ↦
            let (run, found, (m, le, date, window)) =
              scan_finds steps (start + 60000) k (omega arith)
                (ap (window_at format windows) (omega arith) ∙ e) in
            (run, run_or-none steps start missed ∙ found, (suc m, omega arith, omega arith, window))
      ]

  -- Where some minute of the eight days after a time is in a window, the next run is found: at one of
  -- those minutes, no later than that one, in the first window that it is in.
  pub next_run_found :
      (date k : ℕ) {w : ScheduleWindow}
      → k ≤ 8 * 24 * 60
      → window_at format windows (next_minute date + k * 60000) ≡ some w
      → (run : Run) × (next_run format windows date ≡ some run)
        × (m : ℕ) × (m ≤ k)
        × (run.date ≡ next_minute date + m * 60000)
        × (window_at format windows run.date ≡ some run.window)
  unfolding next_run
  next_run_found date k h e =
      let (run, found, (m, le, date, window)) =
        scan_finds (8 * 24 * 60 + 1) (next_minute date) k (omega arith) e in
      (run, found, m, le, date, window)

index_or_zero-lt :
    (name : String) (names : List String) (n bound : ℕ)
    → n + length names ≤ bound
    → 0 < bound
    → index_or_zero name names n < bound
unfolding index_or_zero
index_or_zero-lt name [] n bound h pos = pos
index_or_zero-lt name (own ∷ names) n bound h pos =
    ground (arith, index_or_zero-lt name names (suc n) bound)

day-lt : (d : ℕ) → d < 7 → any (λ own. own == d) (0 ∷ 1 ∷ 2 ∷ 3 ∷ 4 ∷ 5 ∷ 6 ∷ []) ≡ true
day-lt d h = ground arith

find_last {ℓ} :
    {A : Type ℓ} (p : A → Bool) (xs : List A) (y : A)
    → p y ≡ true
    → (x : A) × (find p (xs ++ y ∷ []) ≡ some x)
find_last p [] y h = (y, (rw h refl))
find_last p (x ∷ xs) y h = elim (Bool-cases (p x)) [
  | inl yes_x ↦ (x, (rw yes_x refl))
  | inr no_x ↦ let (found, e) = find_last p xs y h in (found, (rw no_x e))
]

abbrev baseline : ScheduleWindow
baseline = record {
  id = "baseline";
  reason = "Baseline refresh";
  days = 0 ∷ 1 ∷ 2 ∷ 3 ∷ 4 ∷ 5 ∷ 6 ∷ [];
  from = hhmm 6 0;
  to = hhmm 22 0;
  every_minutes = 360;
}

matches-baseline :
    (time : LocalTime) → time.day < 7 → time.minutes ≡ 360 → matches time baseline ≡ true
unfolding matches
matches-baseline time d e = rw (e, day-lt time.day d) refl

-- At six in the morning, whatever the day, some window of the default schedule is open.
baseline_open :
    (format : ℕ → Parts) (date : ℕ)
    → (format date).hour % 24 ≡ 6
    → (format date).minute ≡ 0
    → (w : ScheduleWindow) × (window_at format default_windows date ≡ some w)
unfolding local_time
baseline_open format date hour minute =
    find_last (matches (local_time format date)) (take 9 default_windows) baseline (
      matches-baseline (local_time format date)
        (index_or_zero-lt (or_else (format date).weekday "Sun") day_names 0 7 (omega arith)
          (omega arith))
        (omega arith))

-- The default schedule never ends: where the clock of the time zone reads 06:00 at one of the
-- minutes of the eight days after a time, as it does on a day without a jump over that minute, there
-- is a next run, no later than that minute.
pub default_windows_run :
    (format : ℕ → Parts) (date k : ℕ)
    → k ≤ 8 * 24 * 60
    → (format (next_minute date + k * 60000)).hour % 24 ≡ 6
    → (format (next_minute date + k * 60000)).minute ≡ 0
    → (run : Run) × (next_run format default_windows date ≡ some run)
      × (run.date ≤ next_minute date + k * 60000)
default_windows_run format date k h hour minute =
    let (w, e) = baseline_open format (next_minute date + k * 60000) hour minute in
    let (run, found, m, le, at, _) = next_run_found format default_windows date k h e in
    (run, found, omega arith)
