-- ===== src/RateLimit/Windows.antt =====
-- What a budget admits of the requests of one window, through `rateLimit` of rate-limit.ts: with its
-- sweeps, and with requests of other identities in between.
use sleeper_ff.Prelude.{
  ℕ, suc, ◌+◌, ◌-◌, ◌≤◌, ◌<◌, min, ◌≡◌, refl, ap, sym, ◌∙◌, String, Bool, true, false, Option, none,
  some, List, [], ◌∷◌, arith, eq_refl, str_eq, if◌then◌else◌, length, All, Bool-cases, inl, inr,
  eq_iff,
}
use sleeper_ff.Prelude.Assoc.{
  lookup, IsMap, lookup-remove_if, lookup-remove_if_kept, length-remove_if-le, remove_if, unless,
}
use sleeper_ff.RateLimit.{
  Window, Limiter, Request, RateLimitScope, RateLimitOptions, Response, Answer, passed, refused,
  max_tracked_keys, is_old, cap, sweep, opened, charge, charge_id, charge_all, scopes_of,
  rate_limit, respond, finish, answer,
}
use sleeper_ff.RateLimit.Budget.{charged-eq, opened_live, lookup-charge, one, admitted_step}
use sleeper_ff.RateLimit.Sweeping.{length-charge-le}

abbrev is_passed : Answer → ℕ
is_passed passed = 1
is_passed (refused message seconds scope) = 0

abbrev let_through : Option (Response × Limiter) → ℕ
let_through none = 0
let_through (some (r, l)) = is_passed r.answer

abbrev left : Limiter → Option (Response × Limiter) → Limiter
left l none = l
left l (some (r, l')) = l'

length-sweep-le :
    (now window_ms : ℕ) (l : Limiter)
    → length l.windows < max_tracked_keys
    → length (sweep now window_ms l).windows ≤ length l.windows
length-sweep-le now window_ms l room =
    unfold sweep cap in ground (arith, length-remove_if-le (is_old now window_ms) l.windows)

-- A live window survives the sweeps of its own limiter.
sweep-live :
    (now window_ms : ℕ) (l : Limiter) (id : String) (w : Window)
    → length l.windows < max_tracked_keys
    → lookup id l.windows ≡ some w
    → now < w.start + window_ms
    → lookup id (sweep now window_ms l).windows ≡ some w
sweep-live now window_ms l id w room e live =
    let young : is_old now window_ms w ≡ false = ground arith in
    unfold sweep cap in
    ground (
      arith,
      lookup-remove_if_kept (is_old now window_ms) id l.windows e young,
      length-remove_if-le (is_old now window_ms) l.windows,
    )

opened-unless :
    (now window_ms : ℕ) (p : Window → Bool) (o : Option Window)
    → opened now window_ms o ≡ none
    → opened now window_ms (unless p o) ≡ none
unfolding opened
opened-unless now window_ms p none e = refl
opened-unless now window_ms p (some w) e = elim (Bool-cases (p w)) [
  | inl gone ↦ rw gone refl
  | inr kept ↦ rw kept e
]

-- A window that has run out stays run out.
sweep-opened :
    (now window_ms : ℕ) (l : Limiter) (id : String)
    → IsMap l.windows
    → length l.windows < max_tracked_keys
    → opened now window_ms (lookup id l.windows) ≡ none
    → opened now window_ms (lookup id (sweep now window_ms l).windows) ≡ none
sweep-opened now window_ms l id m room e =
    let closed : opened now window_ms (lookup id (remove_if (is_old now window_ms) l.windows))
        ≡ none =
      rw (lookup-remove_if (is_old now window_ms) id l.windows m)
        (opened-unless now window_ms (is_old now window_ms) (lookup id l.windows) e) in
    unfold sweep cap in
    ground (arith, closed, e, length-remove_if-le (is_old now window_ms) l.windows)

module _ (o : RateLimitOptions) (s : RateLimitScope) (id : String) where
  abbrev pub is_own : Request → Bool
  is_own req = str_eq (charge_id o.bucket s req) id

  -- How many of the requests are of the identity, and how many of those are let through
  abbrev pub sent : List (ℕ × Request) → ℕ
  sent [] = 0
  sent ((t, req) ∷ rest) = if is_own req then suc (sent rest) else sent rest

  unfoldable pub admits : List (ℕ × Request) → Limiter → ℕ
  admits [] l = 0
  admits ((t, req) ∷ rest) l =
      let answered = rate_limit o t req l in
      (if is_own req then let_through answered else 0) + admits rest (left l answered)

  rate_limit-single :
      (t : ℕ) (req : Request) (l : Limiter)
      → scopes_of o ≡ s ∷ []
      → (let_through (rate_limit o t req l)
          ≡ one
              (charge t
                (charge_id o.bucket s req)
                s.max
                o.window_ms
                s.name
                (sweep t o.window_ms l)).0.exceeded)
        × (left l (rate_limit o t req l)
            ≡ (charge t
                (charge_id o.bucket s req)
                s.max
                o.window_ms
                s.name
                (sweep t o.window_ms l)).1)
  unfolding rate_limit charge_all finish respond answer
  rate_limit-single t req l e =
      let c =
        (charge t (charge_id o.bucket s req) s.max o.window_ms s.name (sweep t o.window_ms l)).0 in
      rw e (elim (Bool-cases c.exceeded) [
        | inl over ↦ rw over (refl, refl)
        | inr within ↦ rw within (refl, refl)
      ])

  module _ (only : scopes_of o ≡ s ∷ []) where
    live-admits :
        (start count : ℕ) (rest : List (ℕ × Request)) (l : Limiter)
        → lookup id l.windows ≡ some (record { start = start; count = count })
        → All (λ e. e.0 < start + o.window_ms) rest
        → length l.windows + length rest ≤ max_tracked_keys
        → admits rest l ≡ min (s.max - count) (sent rest)
    unfolding admits
    live-admits start count [] l e h room = omega arith
    live-admits start count ((t, req) ∷ rest) l e h room =
        let w : Window = record { start = start; count = count } in
        let own = charge_id o.bucket s req in
        let swept = sweep t o.window_ms l in
        let some_room : length l.windows < max_tracked_keys = omega (arith, room) in
        let found = sweep-live t o.window_ms l id w some_room e h.0 in
        let (answered, kept) = rate_limit-single t req l only in
        let l' = (charge t own s.max o.window_ms s.name swept).1 in
        let fits : length l'.windows + length rest ≤ max_tracked_keys = omega (
          arith,
          room,
          length-sweep-le t o.window_ms l some_room,
          length-charge-le t own s.max o.window_ms s.name swept,
        ) in
        elim (Bool-cases (str_eq own id)) [
          | inl same ↦
              let w' : Window = record { start = start; count = count + 1 } in
              let here : own ≡ id = (eq_iff own id).0 same in
              let c =
                charged-eq own s.max o.window_ms s.name t swept w'
                  (rw (here, found) (rw (opened_live t o.window_ms w h.0) refl)) in
              let stored : lookup id l'.windows ≡ some w' =
                ap (λ i. lookup i l'.windows) (sym here) ∙ c.1 in
              rw (same, answered, kept, c.0, live-admits start (count + 1) rest l' stored h.1 fits)
                (admitted_step s.max count (sent rest))
          | inr other ↦
              let stored : lookup id l'.windows ≡ some w =
                lookup-charge t own s.max o.window_ms s.name swept id ∙ (rw other found) in
              rw (other, kept, live-admits start count rest l' stored h.1 fits) (omega arith)
        ]

    -- Under a limiter with one budget, from the request with which an identity's window opens, and
    -- while the map of windows has room for one more of each request: of the requests of the
    -- identity in that window, exactly the first `max` are let through, whatever requests of other
    -- identities that limiter answers in between, and with the sweeps that all of them cause.
    pub requests_exact :
        (t : ℕ) (req : Request) (rest : List (ℕ × Request)) (l : Limiter)
        → IsMap l.windows
        → charge_id o.bucket s req ≡ id
        → opened t o.window_ms (lookup id l.windows) ≡ none
        → All (λ e. e.0 < t + o.window_ms) rest
        → length l.windows + length rest < max_tracked_keys
        → admits ((t, req) ∷ rest) l ≡ min s.max (sent ((t, req) ∷ rest))
    unfolding admits
    requests_exact t req rest l m here e h room =
        let own = charge_id o.bucket s req in
        let swept = sweep t o.window_ms l in
        let some_room : length l.windows < max_tracked_keys = omega (arith, room) in
        let closed = sweep-opened t o.window_ms l id m some_room e in
        let (answered, kept) = rate_limit-single t req l only in
        let l' = (charge t own s.max o.window_ms s.name swept).1 in
        let w' : Window = record { start = t; count = 1 } in
        let same : str_eq own id ≡ true = rw here (eq_refl id) in
        let c = charged-eq own s.max o.window_ms s.name t swept w' (rw (here, closed) refl) in
        let stored : lookup id l'.windows ≡ some w' =
          ap (λ i. lookup i l'.windows) (sym here) ∙ c.1 in
        let fits : length l'.windows + length rest ≤ max_tracked_keys = omega (
          arith,
          room,
          length-sweep-le t o.window_ms l some_room,
          length-charge-le t own s.max o.window_ms s.name swept,
        ) in
        rw (same, answered, kept, c.0, live-admits t 1 rest l' stored h fits)
          (ground (arith, admitted_step s.max 0 (sent rest)))
