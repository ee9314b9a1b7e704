-- ===== src/Examples/Limits.antt =====
-- Rate limiting on concrete requests.
use sleeper_ff.Prelude.{
  ◌+◌, ◌≤◌, ◌≡◌, refl, ◌↔◌, arith, true, false, length, All, none, some, [], ◌∷◌,
}
use sleeper_ff.Prelude.Assoc.{lookup, insert, remove, IsMap}
use sleeper_ff.Prelude.Text.{has_char, strip_prefix, split}
use sleeper_ff.RateLimit.{
  Limiter, Request, RateLimitOptions, Response, max_tracked_keys, passed, rate_limit, charge,
  charge_all, scopes_of, sweep, opened, place, client_address, tightest, RateLimitScope,
}
use sleeper_ff.RateLimit.Windows.{admits, requests_exact}
use sleeper_ff.RateLimit.Answers.{rate_limit_answer, charges_of}
use sleeper_ff.RateLimit.Sweeping.{rate_limit_bounded, short_sweep_resets_budget}

abbrev none_yet : Limiter
none_yet = record { windows = []; swept_at = 0 }

abbrev from_one : Request
from_one = record {
  ip = some "1.2.3.4";
  remote_address = none;
  session_family = none;
  login = none;
}

abbrev from_two : Request
from_two = record from_one { ip = some "5.6.7.8" }

abbrev address_scope : RateLimitScope
address_scope = record { max = 1; key = client_address; name = "address" }

abbrev one_a_minute : RateLimitOptions
one_a_minute = record {
  bucket = "b";
  window_ms = 60000;
  per_address = some 1;
  per_session = none;
  per_subject = none;
  message = none;
}

-- Three requests of one address, and one of another in between
requests_exact_example :
    admits one_a_minute address_scope "b:address:1.2.3.4"
      ((5, from_one) ∷ (6, from_two) ∷ (7, from_one) ∷ (8, from_one) ∷ [])
      none_yet
    ≡ 1
unfolding scopes_of client_address has_char strip_prefix split opened lookup IsMap
requests_exact_example =
    requests_exact one_a_minute address_scope "b:address:1.2.3.4" refl 5 from_one
      ((6, from_two) ∷ (7, from_one) ∷ (8, from_one) ∷ []) none_yet tt refl refl
      (omega arith, (omega arith, (omega arith, tt))) (omega arith)

abbrev first_answer : Response
first_answer = record { limit = 1; remaining = 0; reset = 60; answer = passed }

abbrev after_first : Limiter
after_first = record {
  windows = ("b:address:1.2.3.4", record { start = 5; count = 1 }) ∷ [];
  swept_at = 0;
}

answered : rate_limit one_a_minute 5 from_one none_yet ≡ some (first_answer, after_first)
unfolding rate_limit charge_all scopes_of charge opened place client_address has_char strip_prefix
    split lookup insert remove sweep tightest
answered = refl

rate_limit_answer_example :
    ((first_answer.answer ≡ passed)
      ↔ All (λ c. c.exceeded ≡ false) (charges_of one_a_minute 5 from_one none_yet))
    × All (λ c. first_answer.remaining ≤ c.remaining) (charges_of one_a_minute 5 from_one none_yet)
rate_limit_answer_example = rate_limit_answer one_a_minute 5 from_one none_yet answered

rate_limit_bounded_example : length after_first.windows ≤ max_tracked_keys + 2
rate_limit_bounded_example = rate_limit_bounded one_a_minute 5 from_one none_yet answered

short_sweep_resets_budget_example :
    ((charge 70000 "b:address:1.2.3.4" 1 900000 "address" after_first).0.exceeded ≡ true)
    × ((charge 70000 "b:address:1.2.3.4" 1 900000 "address"
          (sweep 70000 60000 after_first)).0.exceeded
        ≡ false)
unfolding IsMap lookup
short_sweep_resets_budget_example =
    short_sweep_resets_budget 70000 60000 900000 1 "address" "b:address:1.2.3.4" after_first
      (record { start = 5; count = 1 }) (refl, tt) refl (omega arith) (omega arith) (omega arith)
      (omega arith) (omega arith)
