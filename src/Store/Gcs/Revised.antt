-- ===== src/Store/Gcs/Revised.antt =====
-- What a change of metadata in internal/store/gcs.go leaves of the newest generation of an object.
use mathlib.Core.Option.{map}
use noctaxris_gcp.Base.{
  ℕ, String, Bool, true, ◌≡◌, refl, ap, ◌∙◌, inl, inr, List, [], ◌∷◌, Option, none, some, ltb,
  update_where, update_where_mem, if◌then◌else◌, Bool-cases, Option-cases,
}
use noctaxris_gcp.Store.Gcs.Types.{ObjectMeta, GcsDb, GcsWorld}
use noctaxris_gcp.Store.Gcs.Lookup.{is_object, newer, latest, is_generation, get_object}
use noctaxris_gcp.Store.Gcs.Metadata.{
  ObjectPatch, patched_object, write_object, patch_object_metadata,
}
use noctaxris_gcp.Store.Gcs.Held.{Held}

-- The same generation of the same object, with the file, size, hashes and time that it had.
pub record SameObject (a b : ObjectMeta) : Type 0 where
  pub bucket : b.bucket ≡ a.bucket
  pub name : b.name ≡ a.name
  pub generation : b.generation ≡ a.generation
  pub size : b.size ≡ a.size
  pub blob_path : b.blob_path ≡ a.blob_path
  pub md5_hash : b.md5_hash ≡ a.md5_hash
  pub crc32c : b.crc32c ≡ a.crc32c
  pub created_at : b.created_at ≡ a.created_at

pub SameObject-refl : (o : ObjectMeta) → SameObject o o
SameObject-refl o = record {
  bucket = refl;
  name = refl;
  generation = refl;
  size = refl;
  blob_path = refl;
  md5_hash = refl;
  crc32c = refl;
  created_at = refl;
}

pub SameObject-trans : (a b c : ObjectMeta) → SameObject a b → SameObject b c → SameObject a c
SameObject-trans a b c h k = record {
  bucket = k.bucket ∙ h.bucket;
  name = k.name ∙ h.name;
  generation = k.generation ∙ h.generation;
  size = k.size ∙ h.size;
  blob_path = k.blob_path ∙ h.blob_path;
  md5_hash = k.md5_hash ∙ h.md5_hash;
  crc32c = k.crc32c ∙ h.crc32c;
  created_at = k.created_at ∙ h.created_at;
}

write_object-SameObject : (r o : ObjectMeta) → SameObject r (write_object o r)
write_object-SameObject r o = record {
  bucket = refl;
  name = refl;
  generation = refl;
  size = refl;
  blob_path = refl;
  md5_hash = refl;
  crc32c = refl;
  created_at = refl;
}

module _ (q : ObjectMeta → Bool) (f : ObjectMeta → ObjectMeta)
    (keeps : (x : ObjectMeta) → SameObject x (f x)) where
  -- The row after the update.
  abbrev pub revised : ObjectMeta → ObjectMeta
  revised x = if q x then f x else x

  pub revised-SameObject : (x : ObjectMeta) → SameObject x (revised x)
  revised-SameObject x = elim (Bool-cases (q x)) [
    | inl t ↦ rw t (keeps x)
    | inr e ↦ rw e (SameObject-refl x)
  ]

  newer-map :
      (x : ObjectMeta) (r : Option ObjectMeta)
      → newer (revised x) (map revised r) ≡ map revised (newer x r)
  newer-map x none = refl
  newer-map x (some y) =
      let gx = (revised-SameObject x).generation in
      let gy = (revised-SameObject y).generation in
      elim (Bool-cases (ltb x.generation y.generation)) [
        | inl t ↦ rw (gx, gy, t) refl
        | inr e ↦ rw (gx, gy, e) refl
      ]

  module _ (bucket name : String) where
    is_object-revised :
        (x : ObjectMeta) → is_object bucket name (revised x) ≡ is_object bucket name x
    is_object-revised x = let s = revised-SameObject x in rw (s.bucket, s.name) refl

    latest-update_where :
        (os : List ObjectMeta)
        → latest bucket name (update_where q f os) ≡ map revised (latest bucket name os)
    unfolding latest update_where
    latest-update_where [] = refl
    latest-update_where (x ∷ os) = elim (Bool-cases (is_object bucket name x)) [
      | inl t ↦
          rw (is_object-revised x, t, latest-update_where os) (newer-map x (latest bucket name os))
      | inr e ↦ rw (is_object-revised x, e) (latest-update_where os)
    ]

    module _ (w : GcsWorld) (o : ObjectMeta) (created period : ℕ) where
      revised-Held :
          (db : GcsDb)
          → Held w bucket name o created period db
          → Held w bucket name
              (revised o)
              created
              period
              (record db { objects = update_where q f db.objects })
      revised-Held db h = record {
        newest = latest-update_where db.objects ∙ ap (map revised) h.newest;
        alone = λ y m same.
            let (z, i, e) = update_where_mem q f db.objects m in
            e ∙ ap revised (h.alone z i (found y z e same));
        row = h.row;
        at_name = h.at_name;
        locked = h.locked;
        long = h.long;
        short = h.short;
      }
        where
          found :
              (y z : ObjectMeta)
              → y ≡ revised z
              → is_generation bucket name (revised o).generation y ≡ true
              → is_generation bucket name o.generation z ≡ true
          found y z e same =
              let sz = revised-SameObject z in
              let so = revised-SameObject o in
              rw (e, sz.bucket, sz.name, sz.generation, so.generation) at same

module _ (w : GcsWorld) (bucket name : String) (created period : ℕ) where
  -- The object is still held, with the columns that make it the same.
  abbrev pub Still : ObjectMeta → GcsDb → Type 0
  Still o db = (o' : ObjectMeta) × SameObject o o' × Held w bucket name o' created period db

  pub Held-Still :
      (o : ObjectMeta) (db : GcsDb) → Held w bucket name o created period db → Still o db
  Held-Still o db h = (o, SameObject-refl o, h)

  pub patch_object_metadata-Still :
      (now : ℕ) (db : GcsDb) (b n : String) (generation : ℕ) (patch : Option ObjectPatch)
      (o : ObjectMeta)
      → Held w bucket name o created period db
      → Still o (patch_object_metadata w now db b n generation patch).0
  unfolding patch_object_metadata
  patch_object_metadata-Still now db b n generation patch o h =
      elim (Option-cases (get_object db b n generation)) [
        | inl p ↦ rw (p, patch_object_metadata) (Held-Still o db h)
        | inr (x, p) ↦ written x patch p
      ]
    where
      written :
          (x : ObjectMeta) (given : Option ObjectPatch)
          → get_object db b n generation ≡ some x
          → Still o (patch_object_metadata w now db b n generation given).0
      written x none p = rw (p, patch_object_metadata) (Held-Still o db h)
      written x (some d) p =
          let q = is_generation x.bucket x.name x.generation in
          let o' = patched_object (w.format_time now) d x in
          let f = write_object o' in
          let keeps : (r : ObjectMeta) → SameObject r (f r) = λ r. write_object-SameObject r o' in
          rw (p, patch_object_metadata)
            (
              revised q f keeps o,
              revised-SameObject q f keeps o,
              revised-Held q f keeps bucket name w o created period db h,
            )
