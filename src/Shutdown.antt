-- ===== src/Shutdown.antt =====
-- apps/api/src/shutdown.ts and lifecycle.ts: the ordered steps of a shutdown, its deadline, its exit
-- code, and the signals that start it.
use sleeper_ff.Prelude.{
  ℕ, ◌+◌, ◌≤◌, ◌<◌, ◌≡◌, refl, sym, ap, String, Bool, true, List, [], ◌∷◌, ◌++◌, arith, leb,
  if◌then◌else◌, any, map,
}

-- A step takes its time and succeeds or throws.
pub record Step : Type 0 where
  pub name : String
  pub takes_ms : ℕ
  pub throws : Bool

-- What a run has done when it ends, and its exit code.
pub record Run : Type 0 where
  pub finished : List String
  pub code : ℕ

-- The loop over the steps, with the time that has passed: a step that has not ended when the grace
-- period expires ends the run, and so does every later one.
unfoldable pub run_steps : ℕ → ℕ → List Step → Run → Run
run_steps grace_ms passed [] r = r
run_steps grace_ms passed (s ∷ ss) r =
    let rest =
      run_steps grace_ms (passed + s.takes_ms) ss
        (record { finished = r.finished ++ s.name ∷ []; code = if s.throws then 1 else r.code }) in
    if leb grace_ms (passed + s.takes_ms) then record r { code = 1 } else rest

-- `run`
unfoldable pub run : ℕ → List Step → Run
unfolding run_steps
run grace_ms steps = run_steps grace_ms 0 steps (record { finished = []; code = 0 })

unfoldable pub duration : List Step → ℕ
duration [] = 0
duration (s ∷ ss) = s.takes_ms + duration ss

abbrev pub names : List Step → List String
names ss = map (λ (s : Step). s.name) ss

-- The lifecycle that the process shares: whether it drains, and whether a shutdown has started.
pub record Lifecycle : Type 0 where
  pub draining : Bool
  pub started : Bool

-- What a signal does: it starts the one shutdown, or, if that has started, ends the process with 1.
pub data Reaction : Type 0 where
  begins : Reaction
  exits : ℕ → Reaction

unfoldable pub on_signal : Lifecycle → Reaction × Lifecycle
on_signal l =
    if l.started then (exits 1, l) else (begins, record { draining = true; started = true })

abbrev any_throws : List Step → Bool
any_throws ss = any (λ (s : Step). s.throws) ss

append_nil : (xs : List String) → xs ++ [] ≡ xs
append_nil [] = refl
append_nil (x ∷ xs) = ap (λ r. x ∷ r) (append_nil xs)

append_assoc :
    (xs : List String) (y : String) (ys : List String) → (xs ++ y ∷ []) ++ ys ≡ xs ++ y ∷ ys
append_assoc [] y ys = refl
append_assoc (x ∷ xs) y ys = ap (λ r. x ∷ r) (append_assoc xs y ys)

run_steps-finished :
    (grace_ms passed : ℕ) (ss : List Step) (r : Run)
    → passed + duration ss < grace_ms
    → (run_steps grace_ms passed ss r).finished ≡ r.finished ++ names ss
unfolding run_steps duration
run_steps-finished grace_ms passed [] r h = sym (append_nil r.finished)
run_steps-finished grace_ms passed (s ∷ ss) r h = ground (
  arith,
  append_assoc r.finished s.name (names ss),
  run_steps-finished grace_ms (passed + s.takes_ms) ss
      (record { finished = r.finished ++ s.name ∷ []; code = if s.throws then 1 else r.code }),
)

run_steps-code :
    (grace_ms passed : ℕ) (ss : List Step) (r : Run)
    → passed + duration ss < grace_ms
    → (run_steps grace_ms passed ss r).code ≡ (if any_throws ss then 1 else r.code)
unfolding run_steps duration
run_steps-code grace_ms passed [] r h = refl
run_steps-code grace_ms passed (s ∷ ss) r h = ground (
  arith,
  run_steps-code grace_ms (passed + s.takes_ms) ss
      (record { finished = r.finished ++ s.name ∷ []; code = if s.throws then 1 else r.code }),
)

run_steps-late :
    (grace_ms passed : ℕ) (ss : List Step) (r : Run)
    → passed < grace_ms
    → grace_ms ≤ passed + duration ss
    → (run_steps grace_ms passed ss r).code ≡ 1
unfolding run_steps duration
run_steps-late grace_ms passed [] r early late = omega arith
run_steps-late grace_ms passed (s ∷ ss) r early late = ground (
  arith,
  run_steps-late grace_ms (passed + s.takes_ms) ss
      (record { finished = r.finished ++ s.name ∷ []; code = if s.throws then 1 else r.code }),
)

-- Where the steps together take less than the grace period, every one of them runs, in the order in
-- which they were added and whatever an earlier one threw; the exit code is 1 if one threw, else 0.
pub run_in_time :
    (grace_ms : ℕ) (steps : List Step)
    → duration steps < grace_ms
    → ((run grace_ms steps).finished ≡ names steps)
      × ((run grace_ms steps).code ≡ (if any (λ (s : Step). s.throws) steps then 1 else 0))
unfolding run
run_in_time grace_ms steps h = (
  run_steps-finished grace_ms 0 steps (record { finished = []; code = 0 }) (omega arith),
  run_steps-code grace_ms 0 steps (record { finished = []; code = 0 }) (omega arith),
)

-- Where the steps take the grace period or longer, the run still ends, with the exit code 1.
pub run_late :
    (grace_ms : ℕ) (steps : List Step)
    → 0 < grace_ms
    → grace_ms ≤ duration steps
    → (run grace_ms steps).code ≡ 1
unfolding run
run_late grace_ms steps pos late =
    run_steps-late grace_ms 0 steps (record { finished = []; code = 0 }) pos (omega arith)
