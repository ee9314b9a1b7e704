-- ===== src/Scheduler/Queue/Counting.antt =====
-- How often a text occurs in a list.
use sleeper_ff.Prelude.{
  ℕ, suc, ◌+◌, ◌<◌, ◌≡◌, refl, ap, String, true, List, [], ◌∷◌, ◌++◌, arith, str_eq, eq_iff,
  if◌then◌else◌, length, includes,
}
use sleeper_ff.Scheduler.Queue.{without}

abbrev pub count : String → List String → ℕ
count id [] = 0
count id (x ∷ xs) = if str_eq x id then suc (count id xs) else count id xs

pub count_end : (id x : String) (xs : List String) → count id (xs ++ x ∷ []) ≡ count id (x ∷ xs)
count_end id x [] = refl
count_end id x (y ∷ xs) = ground (arith, count_end id x xs)

pub count_same : (id k : String) (xs : List String) → str_eq id k ≡ true → count id xs ≡ count k xs
count_same id k xs e = ap (λ i. count i xs) ((eq_iff id k).0 e)

pub count-includes : (id : String) (xs : List String) → includes id xs ≡ true → 0 < count id xs
count-includes id [] h = cc
count-includes id (x ∷ xs) h = ground (arith, count-includes id xs)

pub length-without :
    (id : String) (xs : List String)
    → includes id xs ≡ true
    → length (without id xs) + 1 ≡ length xs
unfolding without
length-without id [] h = cc
length-without id (x ∷ xs) h = ground (arith, length-without id xs)

pub count-without :
    (id k : String) (xs : List String)
    → includes id xs ≡ true
    → count k (without id xs) + (if str_eq id k then 1 else 0) ≡ count k xs
unfolding without
count-without id k [] h = cc
count-without id k (x ∷ xs) h =
    ground (arith, count-without id k xs, eq_iff id k, eq_iff x id, eq_iff x k)
