-- ===== src/RateLimit/Budget.antt =====
-- What one charge of rate-limit.ts counts, and whether it exceeds its budget.
use sleeper_ff.Prelude.{
  ℕ, suc, ◌+◌, ◌-◌, ◌<◌, min, ◌≡◌, refl, ap, ◌∙◌, String, Bool, true, false, Option, none, some,
  arith, eq_refl, str_eq, ltb, if◌then◌else◌,
}
use sleeper_ff.Prelude.Assoc.{Assoc, lookup, lookup-insert, lookup-remove}
use sleeper_ff.RateLimit.{Window, Limiter, opened, place, charge}

-- The window in which a charge at `now` counts, after it has counted.
abbrev pub counted : ℕ → Option Window → Window
counted now none = record { start = now; count = 1 }
counted now (some w) = record w { count = w.count + 1 }

place-counted :
    (now : ℕ) (id : String) (o : Option Window) (ws : Assoc Window)
    → (place now id o ws).0 ≡ counted now o
unfolding place
place-counted now id none ws = refl
place-counted now id (some w) ws = refl

lookup-place :
    (now : ℕ) (id : String) (o : Option Window) (ws : Assoc Window) (j : String)
    → lookup j (place now id o ws).1 ≡ (if str_eq id j then some (counted now o) else lookup j ws)
unfolding place
lookup-place now id none ws j = simp (lookup-insert, lookup-remove) (ground arith)
lookup-place now id (some w) ws j = lookup-insert id j _ ws

-- A charge writes the window of its own id, and leaves every other id's window alone.
pub lookup-charge :
    (now : ℕ) (id : String) (limit window_ms : ℕ) (scope : String) (l : Limiter) (j : String)
    → lookup j (charge now id limit window_ms scope l).1.windows ≡ (
        if str_eq id j
        then some (counted now (opened now window_ms (lookup id l.windows)))
        else lookup j l.windows)
unfolding charge
lookup-charge now id limit window_ms scope l j = lookup-place now id _ l.windows j

exceeded-charge :
    (now : ℕ) (id : String) (limit window_ms : ℕ) (scope : String) (l : Limiter)
    → (charge now id limit window_ms scope l).0.exceeded
      ≡ ltb limit (counted now (opened now window_ms (lookup id l.windows))).count
unfolding charge
exceeded-charge now id limit window_ms scope l = rw place-counted refl

pub opened_live :
    (now window_ms : ℕ) (w : Window)
    → now < w.start + window_ms
    → opened now window_ms (some w) ≡ some w
unfolding opened
opened_live now window_ms w h = ground arith

-- A request counts as let through where its budget is not exceeded.
abbrev pub one : Bool → ℕ
one true = 0
one false = 1

pub admitted_step :
    (limit count n : ℕ)
    → one (ltb limit (count + 1)) + min (limit - (count + 1)) n ≡ min (limit - count) (suc n)
admitted_step limit count n = ground arith

module _ (id : String) (limit window_ms : ℕ) (scope : String) where
  -- What one more request adds, when the window that it counts in is `w`.
  pub charged-eq :
      (t : ℕ) (l : Limiter) (w : Window)
      → counted t (opened t window_ms (lookup id l.windows)) ≡ w
      → ((charge t id limit window_ms scope l).0.exceeded ≡ ltb limit w.count)
        × (lookup id (charge t id limit window_ms scope l).1.windows ≡ some w)
  charged-eq t l w e = (
    exceeded-charge t id limit window_ms scope l ∙ ap (λ (v : Window). ltb limit v.count) e,
    rw (lookup-charge, eq_refl, e) refl,
  )
