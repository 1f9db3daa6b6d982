-- ===== src/Store/Paths/Tests.antt =====
-- Bucket directories under a data root.
use noctaxris_gcp.Base.{
  String, true, ◌≡◌, refl, List, [], ◌∷◌, ◌++◌, Result, ok, err, message, split_on, has_prefix,
  contains, trim_space, to_lower, All,
}
use noctaxris_gcp.Store.Paths.Filepath.{
  clean, clean_segments, clean_loop, clean_step, popped, join, join_slash, is_abs, abs, rel, apart,
  way, ups,
}
use noctaxris_gcp.Store.Paths.Buckets.{
  err_invalid_gcs_bucket_name, validate_gcs_bucket_name, gcs_bucket_name_pattern, check_elements,
  related, join_under_root, gcs_bucket_dir, ensure_under_gcs_root,
}
use noctaxris_gcp.Store.Paths.Segments.{Good, render}
use noctaxris_gcp.Store.Paths.Under.{join_under_root_inside}

abbrev home : Result String
home = ok "/home/lab"

names :
    (validate_gcs_bucket_name " my-bucket.1 " ≡ ok tt)
    × (validate_gcs_bucket_name "My-bucket" ≡ err err_invalid_gcs_bucket_name)
    × (validate_gcs_bucket_name "a..b" ≡ err err_invalid_gcs_bucket_name)
    × (validate_gcs_bucket_name "ab" ≡ err err_invalid_gcs_bucket_name)
    × (validate_gcs_bucket_name "bucket-" ≡ err err_invalid_gcs_bucket_name)
unfolding validate_gcs_bucket_name gcs_bucket_name_pattern has_prefix contains trim_space to_lower
names = (refl, refl, refl, refl, refl)

bucket_dir : gcs_bucket_dir home "data" "my-bucket" ≡ ok "/home/lab/data/gcs/my-bucket"
unfolding gcs_bucket_dir validate_gcs_bucket_name gcs_bucket_name_pattern join_under_root
    check_elements related abs rel apart way ups join join_slash clean clean_segments clean_loop
    clean_step popped split_on has_prefix contains trim_space to_lower
bucket_dir = refl

joined : join_under_root home " /srv/./data " ("gcs" ∷ "" ∷ "b/./o" ∷ []) ≡ ok "/srv/data/gcs/b/o"
unfolding join_under_root check_elements related abs rel apart way ups join join_slash clean
    clean_segments clean_loop clean_step popped split_on has_prefix contains trim_space
joined = refl

escaped :
    (join_under_root home "data" ("gcs" ∷ "../x" ∷ []) ≡ err (message "path escapes root"))
    × (join_under_root home "data" ("/etc" ∷ [])
        ≡ err (message "absolute path segment not allowed"))
    × (ensure_under_gcs_root home "data" "data/gcs/../secret"
        ≡ err (message "path escapes gcs root"))
unfolding join_under_root ensure_under_gcs_root check_elements related abs rel apart way ups join
    join_slash clean clean_segments clean_loop clean_step popped split_on has_prefix contains
    trim_space
escaped = (refl, refl, refl)

home_rooted : (wd : String) → home ≡ ok wd → is_abs wd ≡ true
home_rooted wd h = let same : "/home/lab" ≡ wd = cc in rw (← same) (unfold has_prefix in refl)

join_under_root_inside_example :
    (base : List String) × (rest : List String) × All Good base
    × All Good rest
    × (abs home (trim_space " /srv/./data ") ≡ ok (render base))
    × ("/srv/data/gcs/b/o" ≡ render (base ++ rest))
join_under_root_inside_example =
    join_under_root_inside home " /srv/./data " ("gcs" ∷ "" ∷ "b/./o" ∷ []) "/srv/data/gcs/b/o"
      home_rooted joined
