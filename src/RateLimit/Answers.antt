-- ===== src/RateLimit/Answers.antt =====
-- What `rateLimit` of rate-limit.ts answers from the charges of a request's scopes.
use sleeper_ff.Prelude.{
  ℕ, ◌≤◌, ◌≡◌, refl, ◌↔◌, false, Option, none, some, List, [], ◌∷◌, arith, ltb, All, find,
  if◌then◌else◌,
}
use mathlib.Core.Path.{subst}
use sleeper_ff.RateLimit.{
  Limiter, Request, RateLimitOptions, Response, Charge, passed, answer, respond, tightest,
  charge_all, scopes_of, sweep, rate_limit, finish,
}

-- The charges that a request causes, after the sweep.
abbrev pub charges_of : RateLimitOptions → ℕ → Request → Limiter → List Charge
charges_of o now req l = (charge_all now o req (scopes_of o) (sweep now o.window_ms l)).0

tighter_le :
    (worst c : Charge)
    → ((if ltb c.remaining worst.remaining then c else worst).remaining ≤ worst.remaining)
      × ((if ltb c.remaining worst.remaining then c else worst).remaining ≤ c.remaining)
tighter_le worst c = ground arith

tightest-le :
    (worst : Charge) (cs : List Charge)
    → ((tightest worst cs).remaining ≤ worst.remaining)
      × All (λ c. (tightest worst cs).remaining ≤ c.remaining) cs
unfolding tightest
tightest-le worst [] = (omega arith, tt)
tightest-le worst (c ∷ cs) =
    let next : Charge = if ltb c.remaining worst.remaining then c else worst in
    let rest = tightest-le next cs in
    let first = tighter_le worst c in
    (omega (arith, rest.0, first.0), (omega (arith, rest.0, first.1), rest.1))

abbrev Within : Charge → Type 0
Within c = c.exceeded ≡ false

find-none_iff : (cs : List Charge) → (find (λ (c : Charge). c.exceeded) cs ≡ none) ↔ All Within cs
find-none_iff [] = (λ h. tt, λ h. refl)
find-none_iff (c ∷ cs) =
    let ih = find-none_iff cs in (λ h. ground (arith, ih.0), λ h. ground (arith, ih.1 h.1))

answer-passed_iff : (o : RateLimitOptions) (f : Option Charge) → (answer o f ≡ passed) ↔ (f ≡ none)
unfolding answer
answer-passed_iff o none = (λ h. refl, λ h. refl)
answer-passed_iff o (some c) = (λ h. cc, λ h. cc)

-- The answer and the header that a response takes from the charges `cs`.
Reports : List Charge → Response → Type 0
Reports cs r = ((r.answer ≡ passed) ↔ All Within cs) × All (λ c. r.remaining ≤ c.remaining) cs

respond-Reports :
    (o : RateLimitOptions) (c : Charge) (cs : List Charge) → Reports (c ∷ cs) (respond o c cs)
unfolding respond Reports
respond-Reports o c cs =
    let least = tightest-le c cs in
    let found = find-none_iff (c ∷ cs) in
    let says = answer-passed_iff o (find (λ (x : Charge). x.exceeded) (c ∷ cs)) in
    ((λ h. found.0 (says.0 h), λ h. says.1 (found.1 h)), (least.0, least.1))

finish-Reports :
    (o : RateLimitOptions) (cs : List Charge) (l : Limiter) {r : Response} {l' : Limiter}
    → finish o cs l ≡ some (r, l')
    → Reports cs r
unfolding finish
finish-Reports o [] l e = cc
finish-Reports o (c ∷ cs) l e = subst (Reports (c ∷ cs)) (cc) (respond-Reports o c cs)

-- A request is let through exactly when none of its budgets is exceeded, and the header
-- `RateLimit-Remaining` promises no more than any one of them has left.
pub rate_limit_answer :
    (o : RateLimitOptions) (now : ℕ) (req : Request) (l : Limiter) {r : Response} {l' : Limiter}
    → rate_limit o now req l ≡ some (r, l')
    → ((r.answer ≡ passed) ↔ All (λ c. c.exceeded ≡ false) (charges_of o now req l))
      × All (λ c. r.remaining ≤ c.remaining) (charges_of o now req l)
unfolding rate_limit Reports
rate_limit_answer o now req l e =
    finish-Reports o (charges_of o now req l)
      (charge_all now o req (scopes_of o) (sweep now o.window_ms l)).1 e
