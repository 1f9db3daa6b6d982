-- ===== src/Store/Gcs/Kept.antt =====
-- What the calls of internal/store/gcs.go leave of an object under a locked retention policy.
use noctaxris_gcp.Base.{
  ℕ, ◌+◌, ◌*◌, ◌<◌, String, true, false, ◌≡◌, ap, ◌∙◌, inl, inr, ◌&&◌, ◌==◌, List, [], ◌∷◌, ◌++◌,
  Option, some, ok, arith, eq_iff, exists_row, delete_where_mem, assign, trim_space, Bool-cases,
  Option-cases, Result-cases, ltb, length,
}
use mathlib.Core.List.Memᴰ
use noctaxris_gcp.Store.Stamps.{second}
use noctaxris_gcp.Store.Gcs.Types.{ObjectMeta, GcsDb, GcsWorld}
use noctaxris_gcp.Store.Gcs.Lookup.{
  next_generation, is_object, is_generation, get_object, check_object_retention,
}
use noctaxris_gcp.Store.Gcs.Objects.{
  Extras, no_extras, fresh_object, put_target, put_object_bytes_meta, put_object_bytes,
  removed_object, delete_object,
}
use noctaxris_gcp.Store.Gcs.Metadata.{extras_of, copy_source, copy_object, gather, compose_object}
use noctaxris_gcp.Store.Gcs.Newest.{latest-delete_where, latest-append}
use noctaxris_gcp.Store.Gcs.Held.{Held, put_refused, delete_refused}

module _ (w : GcsWorld) (bucket name : String) (o : ObjectMeta) (created period : ℕ) where
  abbrev pub Kept : GcsDb → Type 0
  Kept = Held w bucket name o created period

  module _ (parsed : w.parse_gcs_time o.created_at ≡ ok created) (positive : 0 < period) where
    removed-Kept :
        (db : GcsDb) (x : ObjectMeta)
        → Kept db
        → is_generation x.bucket x.name x.generation o ≡ false
        → Kept (removed_object w db x)
    removed-Kept db x h other = record {
      newest =
          latest-delete_where bucket name (is_generation x.bucket x.name x.generation) db.objects
            h.newest other;
      alone = λ y m same.
          h.alone y (delete_where_mem (is_generation x.bucket x.name x.generation) db.objects m).0
            same;
      row = h.row;
      at_name = h.at_name;
      locked = h.locked;
      long = h.long;
      short = h.short;
    }

    pub delete_object-Kept :
        (now : ℕ) (db : GcsDb) (b n : String) (generation : ℕ)
        → Kept db
        → now < created + period * second
        → Kept (delete_object w now db b n generation).0
    unfolding delete_object
    delete_object-Kept now db b n generation h early =
        elim (Option-cases (get_object db b n generation)) [
          | inl p ↦ rw (p, delete_object) h
          | inr (x, p) ↦ elim (Bool-cases (is_generation x.bucket x.name x.generation o)) [
            | inl same ↦
                rw
                  (delete_refused w bucket name o created period parsed positive now db b n
                    generation x h early p same)
                  h
            | inr other ↦ elim (Result-cases (check_object_retention w now db b n x.generation)) [
              | inr (e, c) ↦ rw (p, delete_object) (rw c h)
              | inl (u, c) ↦
                  elim (Bool-cases
                    (exists_row (is_generation x.bucket x.name x.generation) db.objects)) [
                      | inl t ↦ rw (p, delete_object) (rw c (rw t (removed-Kept db x h other)))
                      | inr f ↦ rw (p, delete_object) (rw c (rw f h))
                    ]
            ]
          ]
        ]

    -- An object of another name.
    appended-Kept :
        (db : GcsDb) (x : ObjectMeta) (files : String → Option (List ℕ))
        → Kept db
        → is_object bucket name x ≡ false
        → Kept (record db { objects = db.objects ++ x ∷ []; files = files })
    appended-Kept db x files h other = record {
      newest = latest-append bucket name db.objects x other ∙ h.newest;
      alone = λ y m same. elim (Memᴰ.append_cases db.objects m) [
        | inl i ↦ h.alone y i same
        | inr i ↦ elim (Memᴰ.cases_cons i) [
          | inl e ↦
              let here : is_object bucket name y ≡ true = ground arith in
              absurd (cc (ap (is_object bucket name) e, here, other))
          | inr j ↦ absurd (Memᴰ.not-nil j)
        ]
      ];
      row = h.row;
      at_name = h.at_name;
      locked = h.locked;
      long = h.long;
      short = h.short;
    }

    pub put-Kept :
        (now : ℕ) (db : GcsDb) (b n content_type : String) (bytes : List ℕ) (meta : Extras)
        → Kept db
        → now < created + period * second
        → Kept (put_object_bytes_meta w now db b n content_type bytes meta).0
    unfolding put_object_bytes_meta fresh_object
    put-Kept now db b n content_type bytes meta h early =
        elim (Result-cases (put_target w now db (trim_space b) n)) [
          | inr (e, p) ↦ rw (p, put_object_bytes_meta) h
          | inl (path, p) ↦ elim (Bool-cases (trim_space b == bucket && n == name)) [
            | inr other ↦
                rw (p, put_object_bytes_meta)
                  (appended-Kept db
                    (fresh_object w now (trim_space b) n content_type
                      (next_generation db (trim_space b) n) bytes meta)
                    (assign db.files path (some bytes)) h other)
            | inl same ↦
                let (e, stopped) =
                  put_refused w bucket name o created period parsed positive now db h early in
                let eb : trim_space b ≡ bucket = ground (arith, eq_iff (trim_space b) bucket) in
                let en : n ≡ name = ground (arith, eq_iff n name) in
                let met : put_target w now db bucket name ≡ ok path = rw (eb, en) at p in
                absurd (cc (met, stopped))
          ]
        ]

    pub copy_object-Kept :
        (now : ℕ) (db : GcsDb) (src_bucket src_name : String) (src_generation : ℕ)
        (dst_bucket dst_name : String)
        → Kept db
        → now < created + period * second
        → Kept (copy_object w now db src_bucket src_name src_generation dst_bucket dst_name).0
    unfolding copy_object
    copy_object-Kept now db src_bucket src_name src_generation dst_bucket dst_name h early =
        elim (Result-cases (copy_source w db src_bucket src_name src_generation)) [
          | inr (e, p) ↦ rw (p, copy_object) h
          | inl ((src, bytes), p) ↦
              rw (p, copy_object)
                (put-Kept now db dst_bucket dst_name src.content_type bytes (extras_of src) h early)
        ]

    pub compose_object-Kept :
        (now : ℕ) (db : GcsDb) (b dest : String) (sources : List String) (content_type : String)
        → Kept db
        → now < created + period * second
        → Kept (compose_object w now db b dest sources content_type).0
    unfolding compose_object put_object_bytes
    compose_object-Kept now db b dest sources content_type h early =
        elim (Bool-cases (ltb (length sources) 1)) [
          | inl t ↦ rw (t, compose_object) h
          | inr f ↦ elim (Bool-cases (ltb 32 (length sources))) [
            | inl t ↦ rw (f, compose_object) (rw t h)
            | inr g ↦ elim (Result-cases (gather w db b content_type sources)) [
              | inr (e, p) ↦ rw (f, compose_object) (rw g (rw p h))
              | inl ((bytes, kind), p) ↦
                  rw (f, compose_object)
                    (rw g (rw p (put-Kept now db b dest kind bytes no_extras h early)))
            ]
          ]
        ]
