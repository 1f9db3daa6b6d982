-- ===== src/Store/Gcs/Blobs.antt =====
-- The files of objects in internal/store/gcs.go.
use noctaxris_gcp.Base.{
  ℕ, String, ◌≡◌, refl, sym, ◌∙◌, inl, inr, List, [], ◌∷◌, ok, subst, concat, trim_space, split_on,
  split_when, Result-cases,
}
use Prim.Native.String.append
use noctaxris_gcp.Store.Numerals.{itoa}
use noctaxris_gcp.Store.Paths.Filepath.{join}
use noctaxris_gcp.Store.Gcs.Types.{ObjectMeta, GcsDb, GcsWorld}
use noctaxris_gcp.Store.Gcs.Lookup.{next_generation}
use noctaxris_gcp.Store.Gcs.Objects.{
  Extras, slashed, clean_parts, sanitize_object_path, fresh_object, put_target,
  put_object_bytes_meta, blob_file, read_object_bytes,
}

-- A slash in front of a name is lost in its path.
sanitize_object_path-slash :
    (name : String) → sanitize_object_path (concat "/" name) ≡ sanitize_object_path name
unfolding sanitize_object_path slashed clean_parts split_on split_when
sanitize_object_path-slash name = rw (append.cons, append.nil) refl

put_blob_path :
    (w : GcsWorld) (now : ℕ) (db : GcsDb) (bucket name content_type : String) (bytes : List ℕ)
    (meta : Extras) {o : ObjectMeta}
    → (put_object_bytes_meta w now db bucket name content_type bytes meta).1 ≡ ok o
    → o.blob_path ≡ join (trim_space bucket ∷ itoa o.generation ∷ sanitize_object_path name ∷ [])
unfolding put_object_bytes_meta fresh_object
put_blob_path w now db bucket name content_type bytes meta {o} h =
    elim (Result-cases (put_target w now db (trim_space bucket) name)) [
      | inr (e, p) ↦ cc (rw (p, put_object_bytes_meta) at h)
      | inl (path, p) ↦
          let same : fresh_object w now (trim_space bucket) name content_type
                (next_generation db (trim_space bucket) name) bytes meta
              ≡ o =
            cc (rw (p, put_object_bytes_meta) at h) in
          subst
            (λ (x : ObjectMeta).
              x.blob_path
              ≡ join (trim_space bucket ∷ itoa x.generation ∷ sanitize_object_path name ∷ []))
            same refl
    ]

module _ (w : GcsWorld) (bucket name : String) where
  -- Take an object that one call has written, and one that another call has written to the same
  -- bucket, under the name with a further slash in front. Where their generations are the same, they
  -- have one path for their bytes, and in every state reading the first answers what reading the
  -- second does.
  pub slash_shares_blob :
      (db db' later : GcsDb) (now now' : ℕ) (type type' : String) (bytes bytes' : List ℕ)
      (meta meta' : Extras) {a b : ObjectMeta}
      → (put_object_bytes_meta w now db bucket name type bytes meta).1 ≡ ok a
      → (put_object_bytes_meta w now' db' bucket (concat "/" name) type' bytes' meta').1 ≡ ok b
      → a.generation ≡ b.generation
      → (a.blob_path ≡ b.blob_path) × (read_object_bytes w later a ≡ read_object_bytes w later b)
  unfolding read_object_bytes blob_file
  slash_shares_blob db db' later now now' type type' bytes bytes' meta meta' {a} {b} p q g =
      let shared : a.blob_path ≡ b.blob_path =
        put_blob_path w now db bucket name type bytes meta p
        ∙ rw (g, sym (sanitize_object_path-slash name)) refl
        ∙ sym (put_blob_path w now' db' bucket (concat "/" name) type' bytes' meta' q) in
      (shared, rw shared refl)
