-- ===== src/Store/PubSub/Filter.antt =====
-- Subscription filters: `parseAttributeEqualityFilter` and `messageMatchesFilter` of
-- internal/store/pubsub.go.
use Prim.Native.Char.{Char, code}
use noctaxris_gcp.Base.{
  ℕ, zero, suc, String, Bool, true, false, not, ◌==◌, List, [], ◌∷◌, Option, none, some, Result, ok,
  err, message, has_prefix, drop_prefix, split_at, trim_space, eqb, ◌≡◌, refl, if◌then◌else◌,
}
use noctaxris_gcp.Store.PubSub.Types.{StringMap, map_get, map_put}

-- Puts a character before the first part.
cons_first : Char → List String → List String
cons_first c [] = String.◌∷◌ c "" ∷ []
cons_first c (part ∷ parts) = String.◌∷◌ c part ∷ parts

-- `strings.Split(s, " AND ")`, on the characters of the separator that are still to be passed over.
split_and_from : ℕ → String → List String
unfolding cons_first has_prefix
split_and_from skip String.[] = "" ∷ []
split_and_from (suc skip) (String.◌∷◌ c s) = split_and_from skip s
split_and_from zero (String.◌∷◌ c s) =
    let cut = "" ∷ split_and_from 4 s in
    let rest = cons_first c (split_and_from 0 s) in
    if has_prefix (String.◌∷◌ c s) " AND " then cut else rest

unfoldable pub split_and : String → List String
unfolding split_and_from
split_and = split_and_from 0

-- `s[:len(s)-1]` where the last byte is a quote.
unquote_end : String → Option String
unquote_end String.[] = none
unquote_end (String.◌∷◌ c String.[]) = if eqb (code c) b'"' then some "" else none
unquote_end (String.◌∷◌ c (String.◌∷◌ d s)) = elim (unquote_end (String.◌∷◌ d s)) [
  | none ↦ none
  | some v ↦ some (String.◌∷◌ c v)
]

-- What stands between the quotes of a quoted text.
unfoldable pub unquote : String → Option String
unfolding unquote_end
unquote String.[] = none
unquote (String.◌∷◌ c s) = if eqb (code c) b'"' then unquote_end s else none

-- One term: its key and its value.
unfoldable pub parse_term : String → Result (String × String)
unfolding unquote trim_space has_prefix drop_prefix split_at
parse_term raw =
    let part = trim_space raw in
    if not (has_prefix part "attributes.")
    then err (message "only attributes.<key> = \"value\" equality is supported")
    else elim (split_at b'=' (trim_space (drop_prefix part "attributes."))) [
      | none ↦ err (message "missing = in filter term")
      | some (before, after) ↦
          if trim_space before == ""
          then err (message "empty attribute key")
          else elim (unquote (trim_space after)) [
            | none ↦ err (message "filter value must be a quoted string")
            | some value ↦ ok (trim_space before, value)
          ]
    ]

-- The loop over the terms.
unfoldable pub parse_terms : StringMap → List String → Result StringMap
parse_terms out [] = ok out
parse_terms out (part ∷ parts) = elim (parse_term part) [
  | err e ↦ err e
  | ok (key, value) ↦ parse_terms (map_put key value out) parts
]

unfoldable pub parse_attribute_equality_filter : String → Result StringMap
parse_attribute_equality_filter filter =
    let trimmed = trim_space filter in
    if trimmed == "" then ok [] else parse_terms [] (split_and trimmed)

-- The loop over the wanted attributes.
unfoldable pub all_wanted : StringMap → StringMap → Bool
all_wanted attributes [] = true
all_wanted attributes ((k, v) ∷ want) =
    let rest = all_wanted attributes want in if not (map_get attributes k == v) then false else rest

unfoldable pub message_matches_filter : String → StringMap → Bool
message_matches_filter filter attributes = elim (parse_attribute_equality_filter filter) [
  | err e ↦ false
  | ok want ↦ all_wanted attributes want
]

parse_two_terms :
    parse_attribute_equality_filter " attributes.a = \"x\" AND attributes.b=\"y z\""
    ≡ ok (("a", "x") ∷ ("b", "y z") ∷ [])
unfolding parse_attribute_equality_filter parse_terms parse_term split_and map_put
parse_two_terms = refl

parse_errors :
    (parse_attribute_equality_filter "attributes.a = x"
      ≡ err (message "filter value must be a quoted string"))
    × (parse_attribute_equality_filter "attributes.a = \""
        ≡ err (message "filter value must be a quoted string"))
unfolding parse_attribute_equality_filter parse_terms parse_term split_and map_put
parse_errors = (refl, refl)
