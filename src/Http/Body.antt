-- ===== src/Http/Body.antt =====
-- apps/api/src/http/body.ts: which request bodies are read at all. `lower` is `toLowerCase`; of an
-- error the model has its status and its code. `Number` of a header's text is a parameter of its
-- result: a number, an infinity, or no number.
use Prim.Native.Char.{code}
use sleeper_ff.Prelude.{
  ℕ, ◌*◌, String, Bool, true, false, not, ◌&&◌, ◌||◌, Option, none, some, List, [], ◌∷◌, leb, ltb,
  ◌==◌, str_eq, if◌then◌else◌, is_some, or_else,
}
use sleeper_ff.Prelude.Text.{trim, split, strip_prefix}

abbrev pub max_body_bytes : ℕ
max_body_bytes = 16 * 1024

-- What `Number` makes of the `content-length` header
pub data Length : Type 0 where
  bytes : ℕ → Length
  negative infinite not_a_number : Length

pub record Headers : Type 0 where
  pub content_length : Option Length
  pub content_type : Option String
  pub transfer_encoding : Option String

pub data Guarded : Type 0 where
  next : Guarded
  rejected : ℕ → String → Guarded

is_subtype_char : ℕ → Bool
is_subtype_char c =
    leb b'a' c && leb c b'z'
    || leb b'A' c && leb c b'Z'
    || leb b'0' c && leb c b'9'
    || c == b'_'
    || c == b'.'
    || c == b'+'
    || c == b'-'

-- `[\w.+-]*\+json` to the end
ends_in_json : String → Bool
unfolding is_subtype_char
ends_in_json String.[] = false
ends_in_json (String.◌∷◌ c s) =
    let rest = ends_in_json s in str_eq (String.◌∷◌ c s) "+json" || is_subtype_char (code c) && rest

-- at least one character before `+json`
is_json_subtype : String → Bool
unfolding ends_in_json is_subtype_char
is_json_subtype String.[] = false
is_json_subtype (String.◌∷◌ c s) =
    str_eq (String.◌∷◌ c s) "json" || is_subtype_char (code c) && ends_in_json s

-- `JSON_TYPES.test(media)`, for a media type in lower case
unfoldable pub is_json_type : String → Bool
unfolding is_json_subtype
is_json_type media = elim (strip_prefix "application/" media) [
  | none ↦ false
  | some subtype ↦ is_json_subtype subtype
]

abbrev pub first_part : List String → String
first_part [] = ""
first_part (p ∷ ps) = p

abbrev pub media_of : (String → String) → Option String → String
media_of lower none = ""
media_of lower (some type) = lower (trim (first_part (split b';' type)))

-- `length > 0`, `Number.isFinite(length) && length > MAX_BODY_BYTES`
abbrev pub is_positive : Length → Bool
is_positive (bytes n) = ltb 0 n
is_positive negative = false
is_positive infinite = true
is_positive not_a_number = false

abbrev pub is_too_long : Length → Bool
is_too_long (bytes n) = ltb max_body_bytes n
is_too_long negative = false
is_too_long infinite = false
is_too_long not_a_number = false

unfoldable pub has_body : Headers → Bool
has_body h = is_some h.transfer_encoding || is_positive (or_else h.content_length (bytes 0))

-- `guardBody`
unfoldable pub guard_body : (String → String) → Headers → Guarded
unfolding has_body is_json_type
guard_body lower h =
    if not (has_body h)
    then next
    else if is_too_long (or_else h.content_length (bytes 0))
    then rejected 413 "body_too_large"
    else if not (is_json_type (media_of lower h.content_type))
    then rejected 415 "unsupported_media_type"
    else next
