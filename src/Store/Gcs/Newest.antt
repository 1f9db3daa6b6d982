-- ===== src/Store/Gcs/Newest.antt =====
-- The newest generation of an object, which `GetObject` of internal/store/gcs.go finds.
use noctaxris_gcp.Base.{
  ℕ, String, Bool, true, false, not, ◌≡◌, refl, ap, ◌∙◌, ◌⊎◌, inl, inr, ◌&&◌, List, [], ◌∷◌, ◌++◌,
  Option, none, some, arith, Memᴰ, select_one_mem, sym, ltb, delete_where, Bool-cases,
}
use noctaxris_gcp.Store.Gcs.Types.{ObjectMeta, GcsDb}
use noctaxris_gcp.Store.Gcs.Lookup.{is_object, newer, latest, is_generation, get_object}

-- No generation above `g`.
abbrev below : ℕ → Option ObjectMeta → Bool
below g none = true
below g (some r) = not (ltb g r.generation)

below-newer :
    (g : ℕ) (o : ObjectMeta) (r : Option ObjectMeta)
    → below g (newer o r) ≡ (not (ltb g o.generation) && below g r)
below-newer g o none = ground arith
below-newer g o (some r) = ground arith

newer_first :
    (o : ObjectMeta) (r : Option ObjectMeta) → below o.generation r ≡ true → newer o r ≡ some o
newer_first o none h = refl
newer_first o (some r) h = ground arith

newer_cases :
    (o : ObjectMeta) (r : Option ObjectMeta) → (below o.generation r ≡ true) ⊎ (newer o r ≡ r)
newer_cases o none = inl refl
newer_cases o (some r) = elim (Bool-cases (ltb o.generation r.generation)) [
  | inl t ↦ inr (rw t refl)
  | inr f ↦ inl (rw f refl)
]

module _ (bucket name : String) where
  latest_hit :
      (o : ObjectMeta) (os : List ObjectMeta)
      → is_object bucket name o ≡ true
      → latest bucket name (o ∷ os) ≡ newer o (latest bucket name os)
  unfolding latest
  latest_hit o os t = rw t refl

  latest_miss :
      (o : ObjectMeta) (os : List ObjectMeta)
      → is_object bucket name o ≡ false
      → latest bucket name (o ∷ os) ≡ latest bucket name os
  unfolding latest
  latest_miss o os f = rw f refl

  module _ (q : ObjectMeta → Bool) where
    below-latest :
        (g : ℕ) (os : List ObjectMeta)
        → below g (latest bucket name os) ≡ true
        → below g (latest bucket name (delete_where q os)) ≡ true
    unfolding delete_where
    below-latest g [] h = h
    below-latest g (o ∷ os) h = elim (Bool-cases (is_object bucket name o)) [
      | inr f ↦
          let ih = below-latest g os (rw (latest_miss o os f) at h) in
          elim (Bool-cases (q o)) [
            | inl d ↦ rw d ih
            | inr k ↦ rw (k, latest_miss o (delete_where q os) f) ih
          ]
      | inl t ↦
          let both : not (ltb g o.generation) && below g (latest bucket name os) ≡ true =
            rw (latest_hit o os t, below-newer g o (latest bucket name os)) at h in
          let ih = below-latest g os (ground arith) in
          elim (Bool-cases (q o)) [
            | inl d ↦ rw d ih
            | inr k ↦
                rw
                  (
                    k,
                    latest_hit o (delete_where q os) t,
                    below-newer g o (latest bucket name (delete_where q os)),
                    ih,
                  )
                  (ground arith)
          ]
    ]

    -- A deletion that spares the newest generation leaves it the newest.
    pub latest-delete_where :
        (os : List ObjectMeta) {o : ObjectMeta}
        → latest bucket name os ≡ some o
        → q o ≡ false
        → latest bucket name (delete_where q os) ≡ some o
    unfolding delete_where
    latest-delete_where [] h k = h
    latest-delete_where (x ∷ os) {o} h k = elim (Bool-cases (is_object bucket name x)) [
      | inr f ↦
          let ih : latest bucket name (delete_where q os) ≡ some o =
            latest-delete_where os (rw (latest_miss x os f) at h) k in
          elim (Bool-cases (q x)) [
            | inl d ↦ rw d ih
            | inr d ↦ rw (d, latest_miss x (delete_where q os) f) ih
          ]
      | inl t ↦ elim (newer_cases x (latest bucket name os)) [
        | inl b ↦
            let same : x ≡ o = cc (newer_first x (latest bucket name os) b, latest_hit x os t, h) in
            rw (ap q same ∙ k, latest_hit x (delete_where q os) t)
              (newer_first x (latest bucket name (delete_where q os))
                  (below-latest x.generation os b)
                ∙ ap some same)
        | inr r ↦
            let rest : latest bucket name os ≡ some o = cc (r, latest_hit x os t, h) in
            let ih : latest bucket name (delete_where q os) ≡ some o =
              latest-delete_where os rest k in
            elim (Bool-cases (q x)) [
              | inl d ↦ rw d ih
              | inr d ↦ rw (d, latest_hit x (delete_where q os) t, ih) (rw rest at r)
            ]
      ]
    ]

  -- An object of another name is no generation of this one.
  pub latest-append :
      (os : List ObjectMeta) (x : ObjectMeta)
      → is_object bucket name x ≡ false
      → latest bucket name (os ++ x ∷ []) ≡ latest bucket name os
  unfolding latest
  latest-append [] x f = rw f refl
  latest-append (o ∷ os) x f = rw (latest-append os x f) refl

pub latest_mem :
    (bucket name : String) (os : List ObjectMeta) {o : ObjectMeta}
    → latest bucket name os ≡ some o
    → Memᴰ o os × (is_object bucket name o ≡ true)
unfolding latest
latest_mem bucket name [] h = cc
latest_mem bucket name (x ∷ os) {o} h = elim (Bool-cases (is_object bucket name x)) [
  | inr f ↦
      let (m, t) = latest_mem bucket name os (rw (latest_miss bucket name x os f) at h) in
      (Memᴰ.tail m, t)
  | inl t ↦ elim (newer_cases x (latest bucket name os)) [
    | inl b ↦
        let same : x ≡ o =
          cc (newer_first x (latest bucket name os) b, latest_hit bucket name x os t, h) in
        (Memᴰ.head (sym same), ap (is_object bucket name) (sym same) ∙ t)
    | inr r ↦
        let rest : latest bucket name os ≡ some o = cc (r, latest_hit bucket name x os t, h) in
        let (m, u) = latest_mem bucket name os rest in (Memᴰ.tail m, u)
  ]
]

pub get_object_mem :
    (db : GcsDb) (bucket name : String) (generation : ℕ) {o : ObjectMeta}
    → get_object db bucket name generation ≡ some o
    → Memᴰ o db.objects × (is_object bucket name o ≡ true)
unfolding get_object
get_object_mem db bucket name generation {o} h = elim (Bool-cases (ltb 0 generation)) [
  | inl t ↦
      let (m, p) =
        select_one_mem (is_generation bucket name generation) db.objects
          (rw (t, get_object) at h) in
      (m, ground arith)
  | inr f ↦ latest_mem bucket name db.objects (rw (f, get_object) at h)
]
