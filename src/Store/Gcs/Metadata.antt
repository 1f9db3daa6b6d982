-- ===== src/Store/Gcs/Metadata.antt =====
-- The methods of internal/store/gcs.go that change the metadata of an object or write one from others.
use noctaxris_gcp.Base.{
  ℕ, ◌+◌, String, List, [], ◌∷◌, ◌++◌, Option, none, some, Result, ok, err, message, ◌>>=◌, concat,
  length, update_where, ltb, if◌then◌else◌,
}
use noctaxris_gcp.Store.PubSub.Types.{StringMap}
use noctaxris_gcp.Store.Kms.Keys.{or_default}
use noctaxris_gcp.Store.Gcs.Types.{ObjectMeta, GcsDb, GcsWorld}
use noctaxris_gcp.Store.Gcs.Buckets.{given_labels}
use noctaxris_gcp.Store.Gcs.Lookup.{is_generation, get_object}
use noctaxris_gcp.Store.Gcs.Objects.{
  Extras, put_object_bytes_meta, put_object_bytes, read_object_bytes,
}

-- The fields of the last argument that `PatchObjectMetadata` reads.
pub record ObjectPatch : Type 0 where
  pub content_type : String
  pub metadata : Option StringMap
  pub cache_control : String
  pub content_disposition : String
  pub content_encoding : String
  pub content_language : String

unfoldable pub patched_object : String → ObjectPatch → ObjectMeta → ObjectMeta
patched_object now p o = record o {
  content_type = or_default o.content_type p.content_type;
  metadata = given_labels p.metadata o.metadata;
  cache_control = or_default o.cache_control p.cache_control;
  content_disposition = or_default o.content_disposition p.content_disposition;
  content_encoding = or_default o.content_encoding p.content_encoding;
  content_language = or_default o.content_language p.content_language;
  metageneration = o.metageneration + 1;
  updated_at = now;
}

-- What the UPDATE writes into the row of the generation.
abbrev pub write_object : ObjectMeta → ObjectMeta → ObjectMeta
write_object o row = record row {
  content_type = o.content_type;
  metadata = o.metadata;
  cache_control = o.cache_control;
  content_disposition = o.content_disposition;
  content_encoding = o.content_encoding;
  content_language = o.content_language;
  metageneration = o.metageneration;
  updated_at = o.updated_at;
}

-- A nil patch is `none`.
unfoldable pub patch_object_metadata :
    GcsWorld → ℕ → GcsDb → String → String → ℕ → Option ObjectPatch → GcsDb × Result ObjectMeta
unfolding patched_object get_object
patch_object_metadata w now db bucket name generation patch =
    elim (get_object db bucket name generation) [
      | none ↦ (db, err (message "object not found"))
      | some o ↦ elim patch [
        | none ↦ (db, ok o)
        | some p ↦
            let o' = patched_object (w.format_time now) p o in
            (
              record db {
                objects =
                    update_where (is_generation o.bucket o.name o.generation) (write_object o')
                      db.objects;
              },
              ok o',
            )
      ]
    ]

abbrev pub extras_of : ObjectMeta → Extras
extras_of o = record {
  content_type = o.content_type;
  metadata = o.metadata;
  cache_control = o.cache_control;
  content_disposition = o.content_disposition;
  content_encoding = o.content_encoding;
  content_language = o.content_language;
}

-- The object to copy, with its bytes.
unfoldable pub copy_source : GcsWorld → GcsDb → String → String → ℕ → Result (ObjectMeta × List ℕ)
unfolding get_object read_object_bytes
copy_source w db bucket name generation = elim (get_object db bucket name generation) [
  | none ↦ err (message "source object not found")
  | some o ↦ read_object_bytes w db o >>= λ bytes. ok (o, bytes)
]

unfoldable pub copy_object :
    GcsWorld → ℕ → GcsDb → String → String → ℕ → String → String → GcsDb × Result ObjectMeta
unfolding copy_source put_object_bytes_meta
copy_object w now db src_bucket src_name src_generation dst_bucket dst_name =
    elim (copy_source w db src_bucket src_name src_generation) [
      | err e ↦ (db, err e)
      | ok (src, bytes) ↦
          put_object_bytes_meta w now db dst_bucket dst_name src.content_type bytes (extras_of src)
    ]

unfoldable pub rewrite_object :
    GcsWorld → ℕ → GcsDb → String → String → ℕ → String → String → GcsDb × Result ObjectMeta
unfolding copy_object
rewrite_object w now db src_bucket src_name src_generation dst_bucket dst_name =
    copy_object w now db src_bucket src_name src_generation dst_bucket dst_name

-- The loop over the sources: their bytes one after the other, and the content type, which is that of
-- the first source with one, where none is asked for.
unfoldable pub gather : GcsWorld → GcsDb → String → String → List String → Result (List ℕ × String)
unfolding get_object read_object_bytes
gather w db bucket content_type [] = ok ([], content_type)
gather w db bucket content_type (src ∷ sources) = elim (get_object db bucket src 0) [
  | none ↦ err (message (concat "source object not found: " src))
  | some o ↦ read_object_bytes w db o >>= λ bytes.
      gather w db bucket (or_default o.content_type content_type) sources >>= λ rest.
      ok (bytes ++ rest.0, rest.1)
]

unfoldable pub compose_object :
    GcsWorld → ℕ → GcsDb → String → String → List String → String → GcsDb × Result ObjectMeta
unfolding gather put_object_bytes
compose_object w now db bucket dest sources content_type =
    if ltb (length sources) 1
    then (db, err (message "at least one source required"))
    else if ltb 32 (length sources)
    then (db, err (message "compose supports at most 32 sources"))
    else elim (gather w db bucket content_type sources) [
      | err e ↦ (db, err e)
      | ok (bytes, kind) ↦ put_object_bytes w now db bucket dest kind bytes
    ]
