-- ===== src/Prelude/Text.antt =====
-- Texts as the program takes them apart: templates, `startsWith` with `slice`, `split`, `join`.
use Prim.Native.Char.{Char, code}
use Prim.Native.String.{String, ◌++◌ as concat}
use mathlib.Core.Bool.{Bool, false, ◌||◌, ◌&&◌}
use mathlib.Core.Option.{Option, none, some}
use mathlib.Core.List.{List}
use sleeper_ff.Prelude.Tests.{◌==◌, leb, if◌then◌else◌}
use Prim.Native.Nat.{ℕ, ◌+◌, ◌-◌, ◌*◌}
use text.Mathlib.Text.{◌==◌ as str_eq}

-- `a + ':' + b`, a template with a colon between its parts
abbrev pub colon : String → String → String
colon a b = concat a (concat ":" b)

-- `text.startsWith(prefix)` with `text.slice(prefix.length)` where it does
unfoldable pub strip_prefix : String → String → Option String
strip_prefix String.[] s = some s
strip_prefix (String.◌∷◌ c p) String.[] = none
strip_prefix (String.◌∷◌ c p) (String.◌∷◌ d s) = if code c == code d then strip_prefix p s else none

-- `text.includes(ch)` for one ASCII character
unfoldable pub has_char : ℕ → String → Bool
has_char k String.[] = false
has_char k (String.◌∷◌ c s) = code c == k || has_char k s

abbrev pub snoc : String → Char → String
snoc s c = concat s (String.◌∷◌ c String.[])

unfoldable pub split_from : ℕ → String → String → List String
split_from k cur String.[] = List.◌∷◌ cur List.[]
split_from k cur (String.◌∷◌ c s) =
    let closed = split_from k "" s in
    let longer = split_from k (snoc cur c) s in if code c == k then List.◌∷◌ cur closed else longer

-- `text.split(ch)` for one ASCII character
unfoldable pub split : ℕ → String → List String
unfolding split_from
split k s = split_from k "" s

-- `parts.join(':')`
unfoldable pub join_colon : List String → String
join_colon List.[] = ""
join_colon (List.◌∷◌ p List.[]) = p
join_colon (List.◌∷◌ p (List.◌∷◌ q ps)) = colon p (join_colon (List.◌∷◌ q ps))

-- the white space and the line terminators that `trim` takes off
is_space : ℕ → Bool
is_space c =
    leb 9 c && leb c 13
    || c == 32
    || c == 160
    || c == 5760
    || leb 8192 c && leb c 8202
    || c == 8232
    || c == 8233
    || c == 8239
    || c == 8287
    || c == 12288
    || c == 65279

trim_end : String → String
unfolding is_space
trim_end String.[] = ""
trim_end (String.◌∷◌ c s) =
    let rest = trim_end s in if is_space (code c) && str_eq rest "" then "" else String.◌∷◌ c rest

trim_start : String → String
unfolding is_space
trim_start String.[] = ""
trim_start (String.◌∷◌ c s) = if is_space (code c) then trim_start s else String.◌∷◌ c s

-- `text.trim()`
unfoldable pub trim : String → String
unfolding trim_start trim_end
trim s = trim_end (trim_start s)

is_digit : ℕ → Bool
is_digit c = leb 48 c && leb c 57

digits_from : ℕ → String → Option ℕ
unfolding is_digit
digits_from n String.[] = some n
digits_from n (String.◌∷◌ c s) =
    let rest = digits_from (n * 10 + (code c - 48)) s in if is_digit (code c) then rest else none

-- `/^\d+$/.test(text)` with `Number(text)`
unfoldable pub decimal : String → Option ℕ
unfolding digits_from
decimal String.[] = none
decimal (String.◌∷◌ c s) = digits_from 0 (String.◌∷◌ c s)
