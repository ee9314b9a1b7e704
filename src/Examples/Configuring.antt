-- ===== src/Examples/Configuring.antt =====
-- The settings, the guards on requests and the metrics on concrete inputs.
use sleeper_ff.Prelude.{
  ◌≡◌, refl, String, true, ◌&&◌, Option, none, some, [], ◌∷◌, All, ◌+◌, arith, false,
}
use sleeper_ff.Prelude.Text.{split, trim, strip_prefix, decimal}
use sleeper_ff.Config.Proxy.{parse_trust_proxy, parse_trust_proxy-Guarded, IsGuarded}
use sleeper_ff.Config.Origins.{
  Url, parse_web_origins, collect_origins, is_refused, entries_of, parse_web_origins_exact,
  IsGranted, IsDistinct,
}
use sleeper_ff.Http.Body.{Headers, bytes, guard_body, next, has_body, is_json_type}
use sleeper_ff.Http.Validation.{
  Rule, Value, Supplied, valued, number, integer, optional, switch, flag, once, apply_rule, ok,
  apply, check_names, apply_rules, text_length, apply_exact, refused, malformed, exclusive, list_of,
  parse_each,
}
use sleeper_ff.Prelude.Assoc.{Assoc, lookup}
use sleeper_ff.Observability.Metrics.{Metric, IsBounded, update, key_of, update-IsBounded}
use sleeper_ff.Http.Selection.{player_selection, by_query, is_query}
use sleeper_ff.Players.Normalizing.{id_rest}

parse_trust_proxy-Guarded_example :
    IsGuarded (true && true) (parse_trust_proxy (some "1") true true)
parse_trust_proxy-Guarded_example = parse_trust_proxy-Guarded (some "1") true true

abbrev dashboard : Url
dashboard = record {
  protocol = "https:";
  username = "";
  password = "";
  pathname = "/";
  search = "";
  hash = "";
  hostname = "huddle.example.com";
  origin = "https://huddle.example.com";
}

abbrev url_of : String → Option Url
url_of entry = some dashboard

parse_web_origins_exact_example :
    All
      (IsGranted url_of true
        (entries_of (some "https://huddle.example.com, https://huddle.example.com/")))
      ("https://huddle.example.com" ∷ [])
    × IsDistinct ("https://huddle.example.com" ∷ [])
unfolding parse_web_origins collect_origins is_refused split trim
parse_web_origins_exact_example =
    parse_web_origins_exact url_of (some "https://huddle.example.com, https://huddle.example.com/")
      true {origins = "https://huddle.example.com" ∷ []} refl

abbrev json : Headers
json = record {
  content_length = some (bytes 12);
  content_type = some "application/json";
  transfer_encoding = none;
}

json_body : guard_body (λ s. s) json ≡ next
unfolding guard_body has_body is_json_type split trim strip_prefix
json_body = refl

abbrev schema : Assoc (Rule Value)
schema = ("week", valued number (integer 1 18)) ∷ ("force", optional (valued switch flag)) ∷ []

abbrev supplied : Assoc Supplied
supplied = ("week", once "7") ∷ []

apply_exact_example :
    (item : Rule Value) × (v : Option Value) × (lookup "week" schema ≡ some item)
    × (apply_rule "week" item (lookup "week" supplied) ≡ ok v)
    × (lookup "week" (("week", some (number 7)) ∷ ("force", none) ∷ []) ≡ some v)
unfolding apply check_names apply_rules lookup integer text_length decimal strip_prefix
apply_exact_example =
    apply_exact supplied schema "week" {parsed = ("week", some (number 7)) ∷ ("force", none) ∷ []}
      refl refl

abbrev fresh_metric : Metric
fresh_metric = record { label_names = "route" ∷ []; series = []; overflowed = false }

update-IsBounded_example :
    IsBounded
      (update (λ value. value + 1) (key_of (("route", "/health") ∷ []) ("route" ∷ [])) fresh_metric)
unfolding lookup
update-IsBounded_example =
    update-IsBounded (λ value. value + 1) (key_of (("route", "/health") ∷ []) ("route" ∷ []))
      fresh_metric (omega arith)

player_search : player_selection (("q", once " allen ") ∷ []) ≡ ok (by_query "allen" 25)
unfolding player_selection apply check_names apply_rules lookup is_query text_length trim integer
player_search = refl

both_refused :
    player_selection (("q", once "allen") ∷ ("ids", once "96") ∷ []) ≡ refused (exclusive "ids")
unfolding player_selection apply check_names apply_rules lookup is_query id_rest text_length list_of
    parse_each split
both_refused = refl

empty_ids : player_selection (("ids", once "") ∷ []) ≡ refused (malformed "ids")
unfolding player_selection apply check_names apply_rules lookup is_query id_rest text_length list_of
    parse_each split
empty_ids = refl
