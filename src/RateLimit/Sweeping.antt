-- ===== src/RateLimit/Sweeping.antt =====
-- What `sweep` of rate-limit.ts keeps and what it forgets, and the size of the map of windows.
use sleeper_ff.Prelude.{
  ℕ, ◌+◌, ◌-◌, ◌≤◌, ◌<◌, ◌≡◌, refl, ◌∙◌, String, true, false, Option, none, some, List, [], ◌∷◌,
  arith, length, length-drop, lt→ltb,
}
use sleeper_ff.Prelude.Assoc.{
  Assoc, IsMap, lookup, lookup-drop-none, lookup-remove_if, remove_if, remove, length-insert-le,
  length-remove-le, length-remove_if-le,
}
use sleeper_ff.RateLimit.{
  Window, Limiter, Request, RateLimitScope, RateLimitOptions, Response, max_tracked_keys, idle_ms,
  is_old, cap, sweep, opened, place, charge, charge_all, scopes_of, rate_limit, finish, Charge,
  charge_id,
}
use sleeper_ff.RateLimit.Budget.{charged-eq, opened_live}

length-cap-lt : (ws : Assoc Window) → length (cap ws) < max_tracked_keys
unfolding cap
length-cap-lt ws = ground (arith, length-drop (length ws - max_tracked_keys + 1) ws)

length-sweep-lt :
    (now window_ms : ℕ) (l : Limiter) → length (sweep now window_ms l).windows < max_tracked_keys
length-sweep-lt now window_ms l =
    unfold sweep in ground (arith, length-cap-lt (remove_if (is_old now window_ms) l.windows))

length-place-le :
    (now : ℕ) (id : String) (o : Option Window) (ws : Assoc Window)
    → length (place now id o ws).1 ≤ length ws + 1
unfolding place
length-place-le now id none ws = omega (
  arith,
  length-insert-le {V = Window} id (record { start = now; count = 1 }) (remove id ws),
  length-remove-le {V = Window} id ws,
)
length-place-le now id (some w) ws = length-insert-le id _ ws

pub length-charge-le :
    (now : ℕ) (id : String) (limit window_ms : ℕ) (scope : String) (l : Limiter)
    → length (charge now id limit window_ms scope l).1.windows ≤ length l.windows + 1
unfolding charge
length-charge-le now id limit window_ms scope l = length-place-le now id _ l.windows

length-charge_all-le :
    (now : ℕ) (o : RateLimitOptions) (req : Request) (ss : List RateLimitScope) (l : Limiter)
    → length (charge_all now o req ss l).1.windows ≤ length l.windows + length ss
unfolding charge_all
length-charge_all-le now o req [] l = omega arith
length-charge_all-le now o req (s ∷ ss) l =
    let id = charge_id o.bucket s req in
    omega (
      arith,
      length-charge-le now id s.max o.window_ms s.name l,
      length-charge_all-le now o req ss (charge now id s.max o.window_ms s.name l).1,
    )

length-scopes_of-le : (o : RateLimitOptions) → length (scopes_of o) ≤ 3
unfolding scopes_of
length-scopes_of-le o = ground arith

finish-eq-some :
    (o : RateLimitOptions) (cs : List Charge) (l : Limiter) {r : Response} {l' : Limiter}
    → finish o cs l ≡ some (r, l')
    → l ≡ l'
unfolding finish
finish-eq-some o [] l e = cc
finish-eq-some o (c ∷ cs) l e = cc

-- However many identities send requests, the map of windows holds at most 20 002 of them after a
-- request: it is swept below its cap first, and a request adds one window for each scope.
pub rate_limit_bounded :
    (o : RateLimitOptions) (now : ℕ) (req : Request) (l : Limiter) {r : Response} {l' : Limiter}
    → rate_limit o now req l ≡ some (r, l')
    → length l'.windows ≤ max_tracked_keys + 2
unfolding rate_limit
rate_limit_bounded o now req l {r} {l'} e =
    let swept = sweep now o.window_ms l in
    let same = finish-eq-some o _ (charge_all now o req (scopes_of o) swept).1 e in
    rw (← same) (
      omega (
        arith,
        length-charge_all-le now o req (scopes_of o) swept,
        length-scopes_of-le o,
        length-sweep-lt now o.window_ms l,
      ))

-- With room in the map, a window younger than the sweeping limiter's own window survives its sweep.
pub sweep_keeps :
    (now window_ms : ℕ) (l : Limiter) (id : String) (w : Window)
    → IsMap l.windows
    → length l.windows < max_tracked_keys
    → lookup id l.windows ≡ some w
    → now < w.start + idle_ms window_ms
    → lookup id (sweep now window_ms l).windows ≡ some w
sweep_keeps now window_ms l id w m room e young =
    unfold sweep cap in
    ground (
      arith,
      lookup-remove_if (is_old now window_ms) id l.windows m,
      length-remove_if-le (is_old now window_ms) l.windows,
    )

sweep_forgets :
    (now window_ms : ℕ) (l : Limiter) (id : String) (w : Window)
    → IsMap l.windows
    → lookup id l.windows ≡ some w
    → l.swept_at + 60000 ≤ now
    → w.start + idle_ms window_ms ≤ now
    → lookup id (sweep now window_ms l).windows ≡ none
sweep_forgets now window_ms l id w m e due old =
    let gone : lookup id (remove_if (is_old now window_ms) l.windows) ≡ none =
      ground (arith, lookup-remove_if (is_old now window_ms) id l.windows m) in
    unfold sweep cap in
    ground (
      arith,
      gone,
      lookup-drop-none (length (remove_if (is_old now window_ms) l.windows) - max_tracked_keys + 1)
          id (remove_if (is_old now window_ms) l.windows) gone,
    )

-- A limiter with a window of a minute, run for any request, forgets the budgets of every other
-- limiter after a minute: an identity that has used up `limit` requests of a longer window, and would
-- be refused, is let through with a full budget once a sweep on behalf of the shorter one has run.
pub short_sweep_resets_budget :
    (now short long limit : ℕ) (scope id : String) (l : Limiter) (w : Window)
    → IsMap l.windows
    → lookup id l.windows ≡ some w
    → now < w.start + long
    → limit ≤ w.count
    → 0 < limit
    → l.swept_at + 60000 ≤ now
    → w.start + idle_ms short ≤ now
    → ((charge now id limit long scope l).0.exceeded ≡ true)
      × ((charge now id limit long scope (sweep now short l)).0.exceeded ≡ false)
short_sweep_resets_budget now short long limit scope id l w m e live spent pos due old =
    let before =
      charged-eq id limit long scope now l (record w { count = w.count + 1 })
        (rw (e, opened_live now long w live) refl) in
    let after =
      charged-eq id limit long scope now (sweep now short l) (record { start = now; count = 1 })
        (rw (sweep_forgets now short l id w m e due old) (unfold opened in refl)) in
    (before.0 ∙ lt→ltb _ _ (omega arith), after.0 ∙ (ground arith))
