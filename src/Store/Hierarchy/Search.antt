-- ===== src/Store/Hierarchy/Search.antt =====
-- `SearchFolders` and `matchFolderSearchQuery` of internal/store/appengine_crm.go, over ASCII texts.
use noctaxris_gcp.Base.{
  String, Bool, true, false, ◌||◌, ◌==◌, List, [], ◌∷◌, none, some, concat, has_prefix, contains,
  split_at, trim_space, trim_prefix, trim_suffix, trim_quotes, fields, to_lower, equal_fold,
  select_where, order_by, if◌then◌else◌,
}
use noctaxris_gcp.Store.PubSub.Topics.{name_le}
use noctaxris_gcp.Store.Hierarchy.Types.{Folder, HierarchyDb}

-- `part[strings.IndexByte(part, '=')+1:]`
abbrev behind_equals : String → String
behind_equals part = elim (split_at b'=' part) [ none ↦ part | some (key, value) ↦ value ]

-- Whether a part of a query lets a folder pass.
part_matches : Folder → String → Bool
part_matches f part =
    if has_prefix part "displayname="
    then contains (to_lower f.display_name)
        (trim_suffix (trim_quotes (trim_prefix part "displayname=")) "*")
    else if has_prefix part "parent="
    then equal_fold f.parent (trim_quotes (trim_prefix part "parent="))
    else if has_prefix part "state=" || has_prefix part "lifecyclestate="
    then equal_fold f.state (trim_quotes (behind_equals part))
    else contains
        (to_lower (concat f.display_name (concat " " (concat f.parent (concat " " f.state))))) part

-- The loop over the parts, on whether some part has matched yet.
parts_match : Folder → Bool → List String → Bool
unfolding part_matches
parts_match f matched_any [] = matched_any
parts_match f matched_any (raw ∷ parts) =
    let part = trim_space raw in
    let skipped = parts_match f matched_any parts in
    let rest = parts_match f true parts in
    if part == "" || part == "and" || part == "or"
    then skipped
    else if part_matches f part
    then rest
    else false

unfoldable pub match_folder_search_query : Folder → String → Bool
unfolding parts_match
match_folder_search_query f q_lower = parts_match f false (fields q_lower)

unfoldable pub search_folders : HierarchyDb → String → List Folder
unfolding match_folder_search_query
search_folders db raw =
    let query = trim_space raw in
    let q_lower = to_lower query in
    let haystack = λ (f : Folder). to_lower (
      concat f.display_name
        (concat " " (concat f.parent (concat " " (concat f.state (concat " " f.name)))))) in
    select_where
      (λ f.
        if query == ""
        then f.state == "ACTIVE"
        else if contains q_lower "="
        then match_folder_search_query f q_lower
        else contains (haystack f) q_lower)
      (order_by (λ a b. name_le a.display_name b.display_name) db.folders)
