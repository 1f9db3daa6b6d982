-- ===== src/Store/PubSub/Matching.antt =====
-- When a message passes the filter of a subscription (`messageMatchesFilter`).
use mathlib.Core.List.Memᴰ
use noctaxris_gcp.Base.{
  String, true, ◌≡◌, refl, ◌↔◌, inl, inr, [], ◌∷◌, Memᴰ, ok, arith, eq_iff, Result-cases, ap,
}
use noctaxris_gcp.Store.PubSub.Types.{StringMap, map_get}
use noctaxris_gcp.Store.PubSub.Filter.{
  all_wanted, parse_attribute_equality_filter, message_matches_filter,
}

-- Every pair that is wanted is an attribute; the attribute that is missing reads as the empty text.
abbrev pub HasAll : StringMap → StringMap → Type 0
HasAll attributes want = (k v : String) → Memᴰ (k, v) want → map_get attributes k ≡ v

all_wanted-HasAll :
    (attributes want : StringMap) → all_wanted attributes want ≡ true → HasAll attributes want
unfolding all_wanted
all_wanted-HasAll attributes [] h k v m = absurd (Memᴰ.not-nil m)
all_wanted-HasAll attributes ((j, u) ∷ want) h k v (Memᴰ.head e) =
    let same : map_get attributes j ≡ u = ground (arith, eq_iff (map_get attributes j) u) in
    cc (same, ap (λ (p : String × String). p.0) e, ap (λ (p : String × String). p.1) e)
all_wanted-HasAll attributes ((j, u) ∷ want) h k v (Memᴰ.tail m) =
    all_wanted-HasAll attributes want (ground arith) k v m

HasAll-all_wanted :
    (attributes want : StringMap) → HasAll attributes want → all_wanted attributes want ≡ true
unfolding all_wanted
HasAll-all_wanted attributes [] h = refl
HasAll-all_wanted attributes ((j, u) ∷ want) h =
    let rest = HasAll-all_wanted attributes want (λ k v m. h k v (Memᴰ.tail m)) in
    let first = h j u (Memᴰ.head refl) in ground (arith, eq_iff (map_get attributes j) u)

-- A message passes a filter exactly when the filter parses, and the attributes have every value that
-- it wants.
pub message_matches_filter_iff :
    (filter : String) (attributes : StringMap)
    → (message_matches_filter filter attributes ≡ true) ↔ (
        (want : StringMap) × (parse_attribute_equality_filter filter ≡ ok want)
        × HasAll attributes want)
unfolding message_matches_filter
message_matches_filter_iff filter attributes =
    elim (Result-cases (parse_attribute_equality_filter filter)) [
      | inl (want, p) ↦ (
        λ h. (want, p, all_wanted-HasAll attributes want (rw (p, message_matches_filter) at h)),
        λ (found, q, has). rw (q, message_matches_filter) (HasAll-all_wanted attributes found has),
      )
      | inr (e, p) ↦ (λ h. cc (rw (p, message_matches_filter) at h), λ (found, q, has). cc)
    ]
