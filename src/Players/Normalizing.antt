-- ===== src/Players/Normalizing.antt =====
-- `normalizePlayers` of apps/api/src/players.ts: what an upstream answer must look like to be stored.
use Prim.Native.Char.{code}
use Prim.Native.String.{◌++◌ as concat}
use sleeper_ff.Prelude.{
  ℕ, suc, ◌*◌, String, Bool, true, false, not, ◌&&◌, ◌||◌, Option, none, some, List, [], ◌∷◌, leb,
  ◌==◌, str_eq, if◌then◌else◌, or_else, ◌>>=◌, includes, zero,
}
use sleeper_ff.Prelude.Assoc.{Assoc, lookup}
use sleeper_ff.Prelude.Text.{trim}
use sleeper_ff.Records.{Stamp, NflPlayer}
use sleeper_ff.SleeperClient.{SleeperApiError, Outcome, returned, threw, validation}

abbrev pub player_refresh_ms : ℕ
player_refresh_ms = 24 * 60 * 60000

abbrev pub player_retry_ms : ℕ
player_retry_ms = 60 * 60000

is_id_char : ℕ → Bool
is_id_char c =
    leb b'A' c && leb c b'Z'
    || leb b'a' c && leb c b'z'
    || leb b'0' c && leb c b'9'
    || c == b'_'
    || c == b'-'

-- at most this many more characters, all of an id
unfoldable pub id_rest : ℕ → String → Bool
unfolding is_id_char
id_rest n String.[] = true
id_rest zero (String.◌∷◌ c s) = false
id_rest (suc n) (String.◌∷◌ c s) = let rest = id_rest n s in is_id_char (code c) && rest

unfoldable pub valid_player_id : String → Bool
unfolding id_rest
valid_player_id id = not (str_eq id "") && id_rest 64 id && not (str_eq id "0")

-- A field of a player as it was sent: `null`, a text, an array with the texts in it (`none` for what
-- is no text), or anything else
pub data Field : Type 0 where
  null other : Field
  text : String → Field
  array : List (Option String) → Field

-- `none` for a value that is no object
abbrev pub RawPlayer : Type 0
RawPlayer = Option (Assoc Field)

abbrev pub or_null : String → Option String
or_null s = if str_eq s "" then none else some s

-- `string(key)`; the outer `none` is the error of a field that is no text
abbrev pub string_of : Option Field → Option (Option String)
string_of none = some none
string_of (some null) = some none
string_of (some other) = none
string_of (some (text s)) = some (or_null (trim s))
string_of (some (array items)) = none

-- Every item a text that is not blank, trimmed
unfoldable pub trimmed_items : List (Option String) → Option (List String)
trimmed_items [] = some []
trimmed_items (none ∷ items) = none
trimmed_items (some s ∷ items) =
    if str_eq (trim s) "" then none else trimmed_items items >>= λ rest. some (trim s ∷ rest)

-- `[...new Set(xs)]`, given what is in the set already
unfoldable pub distinct_after : List String → List String → List String
distinct_after seen [] = []
distinct_after seen (x ∷ xs) =
    let more = distinct_after (x ∷ seen) xs in
    let same = distinct_after seen xs in if includes x seen then same else x ∷ more

abbrev pub positions_of : Option Field → Option (List String)
positions_of none = some []
positions_of (some null) = some []
positions_of (some other) = none
positions_of (some (text s)) = none
positions_of (some (array items)) = trimmed_items items >>= λ xs. some (distinct_after [] xs)

-- `[firstName, lastName].filter(Boolean).join(' ')`
abbrev pub joined_name : Option String → Option String → String
joined_name none none = ""
joined_name none (some l) = l
joined_name (some f) none = f
joined_name (some f) (some l) = concat f (concat " " l)

abbrev pub is_text : String → Option Field → Bool
is_text id (some (text s)) = str_eq s id
is_text id _ = false

-- One entry of `normalizePlayers`
unfoldable pub normalize_player : Stamp → String → RawPlayer → Option NflPlayer
unfolding valid_player_id trimmed_items distinct_after
normalize_player at id none = none
normalize_player at id (some fields) =
    if not (valid_player_id id) || not (is_text id (lookup "player_id" fields)) then none else do
      let string : String → Option (Option String) = λ key. string_of (lookup key fields)
      first_name ← string "first_name"
      last_name ← string "last_name"
      full_name ← string "full_name"
      fantasy_positions ← positions_of (lookup "fantasy_positions" fields)
      team ← string "team"
      position ← string "position"
      status ← string "status"
      injury_status ← string "injury_status"
      some record {
        id = id;
        first_name = first_name;
        last_name = last_name;
        full_name = or_else full_name (or_else (or_null (joined_name first_name last_name)) id);
        team = team;
        position = position;
        fantasy_positions = fantasy_positions;
        status = status;
        injury_status = injury_status;
        synchronized_at = at;
      }

abbrev pub RawDirectory : Type 0
RawDirectory = Option (Assoc RawPlayer)

abbrev pub invalid_directory : SleeperApiError
invalid_directory = record {
  status = 502;
  category = validation;
  retryable = false;
  retry_after_ms = none;
}

unfoldable pub normalize_entries : Stamp → Assoc RawPlayer → Option (List NflPlayer)
unfolding normalize_player
normalize_entries at [] = some []
normalize_entries at ((id, value) ∷ entries) = normalize_player at id value >>= λ player.
    normalize_entries at entries >>= λ players. some (player ∷ players)

abbrev pub or_invalid : Option (List NflPlayer) → Outcome (List NflPlayer)
or_invalid none = threw invalid_directory
or_invalid (some players) = returned players

-- `normalizePlayers(raw, at)`
unfoldable pub normalize_players : Stamp → RawDirectory → Outcome (List NflPlayer)
unfolding normalize_entries
normalize_players at none = threw invalid_directory
normalize_players at (some []) = threw invalid_directory
normalize_players at (some (entry ∷ entries)) = or_invalid (normalize_entries at (entry ∷ entries))
