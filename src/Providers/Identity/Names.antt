-- ===== src/Providers/Identity/Names.antt =====
-- `normalizeName` of apps/api/src/providers/identity.ts.
use Prim.Native.Char.{code}
use Prim.Native.String.{◌++◌ as concat}
use sleeper_ff.Prelude.{
  ℕ, String, Bool, ◌&&◌, ◌||◌, List, [], ◌∷◌, leb, ◌==◌, str_eq, if◌then◌else◌, length, includes,
  ◌≡◌, refl,
}
use sleeper_ff.Prelude.Text.{snoc}

-- `/\s/`
is_white : ℕ → Bool
is_white c =
    c == 32
    || leb 9 c && leb c 13
    || c == 160
    || c == 5760
    || leb 8192 c && leb c 8202
    || c == 8232
    || c == 8233
    || c == 8239
    || c == 8287
    || c == 12288
    || c == 65279

-- The text without combining marks and whatever else is neither a lower case letter nor white space
clean : String → String
unfolding is_white
clean String.[] = ""
clean (String.◌∷◌ c s) =
    let rest = clean s in
    if leb b'a' (code c) && leb (code c) b'z' || is_white (code c) then String.◌∷◌ c rest else rest

-- `split(/\s+/).filter(Boolean)`, with the part that is being read
words_from : String → String → List String
unfolding is_white
words_from part String.[] = if str_eq part "" then [] else part ∷ []
words_from part (String.◌∷◌ c s) =
    let closed = words_from "" s in
    let longer = words_from (snoc part c) s in
    if is_white (code c) then if str_eq part "" then closed else part ∷ closed else longer

abbrev suffixes : List String
suffixes = "jr" ∷ "sr" ∷ "ii" ∷ "iii" ∷ "iv" ∷ "v" ∷ []

abbrev rev_onto : List String → List String → List String
rev_onto [] ys = ys
rev_onto (x ∷ xs) ys = rev_onto xs (x ∷ ys)

-- The `while` loop, on the parts from last to first
pop_suffixes : List String → List String
pop_suffixes [] = []
pop_suffixes (last ∷ parts) =
    let rest = pop_suffixes parts in
    if leb 2 (length parts) && includes last suffixes then rest else last ∷ parts

join_space : List String → String
join_space [] = ""
join_space (x ∷ []) = x
join_space (x ∷ y ∷ ys) = concat x (concat " " (join_space (y ∷ ys)))

unfoldable pub normalize_name : (String → String) → String → String
unfolding clean words_from pop_suffixes join_space
normalize_name letters value =
    join_space (rev_onto (pop_suffixes (rev_onto (words_from "" (clean (letters value))) [])) [])

drops_suffix : normalize_name (λ s. s) "d.j. moore  jr" ≡ "dj moore"
unfolding normalize_name
drops_suffix = refl

keeps_short_name : normalize_name (λ s. s) "smith jr" ≡ "smith jr"
unfolding normalize_name
keeps_short_name = refl
