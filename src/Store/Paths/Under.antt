-- ===== src/Store/Paths/Under.antt =====
-- `JoinUnderRoot` of internal/store/pathsafe.go never leaves the root.
use Prim.Native.String.append
use text.Mathlib.TextLemmas.{append_assoc}
use mathlib.Core.List.{append-nil}
use noctaxris_gcp.Base.{
  String, true, false, ◌==◌, ◌≡◌, refl, sym, ap, subst, ◌∙◌, inl, inr, List, [], ◌∷◌, ◌++◌, Result,
  ok, err, arith, eq_iff, annotate, concat, has_prefix, has_prefix-append, trim_space, All,
  Bool-cases, Result-cases,
}
use noctaxris_gcp.Store.Paths.Filepath.{join_slash, is_abs, join, abs, apart, ups, way, rel}
use noctaxris_gcp.Store.Paths.Buckets.{escapes, check_elements, related, join_under_root}
use noctaxris_gcp.Store.Paths.Segments.{Good, render, clean-rooted, clean_segments-render}

render-rooted : (ss : List String) → is_abs (render ss) ≡ true
render-rooted ss = has_prefix-append "/" (join_slash ss)

-- What two lists have in common stands before what is left of each.
apart_common :
    (bs ts : List String)
    → (pre : List String) × (bs ≡ pre ++ (apart bs ts).0) × (ts ≡ pre ++ (apart bs ts).1)
unfolding apart
apart_common [] ts = ([], refl, refl)
apart_common (b ∷ bs) [] = ([], refl, refl)
apart_common (b ∷ bs) (t ∷ ts) = elim (Bool-cases (b == t)) [
  | inr f ↦ ([], rw (f, apart) refl, rw (f, apart) refl)
  | inl e ↦
      let (pre, p, q) = apart_common bs ts in
      (b ∷ pre, rw (e, apart) (cc p), rw (e, apart) (cc (q, (eq_iff b t).0 e)))
]

dots_slash : (t : String) → has_prefix (concat ".." (concat "/" t)) "../" ≡ true
dots_slash t =
    subst (λ (s : String). has_prefix s "../" ≡ true) (append_assoc ".." "/" t)
      (has_prefix-append "../" t)

dots_escape : (t : String) → escapes (concat ".." (concat "/" t)) ≡ true
dots_escape t = ground (arith, dots_slash t)

-- A way that leads up escapes.
ups_escape : (b : String) (bs ts : List String) → escapes (join_slash (ups (b ∷ bs) ts)) ≡ true
unfolding ups join_slash
ups_escape b [] [] = refl
ups_escape b [] (t ∷ ts) = dots_escape (join_slash (t ∷ ts))
ups_escape b (c ∷ bs) ts = dots_escape (join_slash (".." ∷ ups bs ts))

ok_text : {s t : String} → ok s ≡ ok t → s ≡ t
ok_text e = cc

-- A way that does not escape leads down.
way_down :
    (bs ts : List String) (text : String) → way (bs, ts) ≡ ok text → escapes text ≡ false → bs ≡ []
unfolding way
way_down [] ts text h f = refl
way_down (b ∷ bs) ts text h f = elim (Bool-cases (b == "..")) [
  | inl t ↦ cc (rw (t, way) at h)
  | inr g ↦
      let same : join_slash (ups (b ∷ bs) ts) ≡ text = ok_text (rw (g, way) at h) in
      cc (ups_escape b bs ts, f, same)
]

rel-render :
    (base target : List String)
    → All Good base
    → All Good target
    → rel (render base) (render target) ≡ way (apart base target)
unfolding rel
rel-render base target gb gt =
    rw
      (
        render-rooted base,
        render-rooted target,
        clean_segments-render base gb,
        clean_segments-render target gt,
      )
      refl

-- Of two rooted paths that are related without a way up, the first is a beginning of the second.
below :
    (base target : List String)
    → All Good base
    → All Good target
    → (p : String) → related (render base) (render target) ≡ ok p
    → (rest : List String) × (target ≡ base ++ rest) × (p ≡ render target)
unfolding related
below base target gb gt p h = elim (Result-cases (rel (render base) (render target))) [
  | inr (e, r) ↦ cc (rw (r, related) at h)
  | inl (text, r) ↦ elim (Bool-cases (escapes text)) [
    | inl t ↦ cc (rw (r, t, related) at h)
    | inr f ↦
        let (pre, b, t) = apart_common base target in
        let nothing_left =
          way_down (apart base target).0 (apart base target).1 text
            (sym (rel-render base target gb gt) ∙ r) f in
        let whole : base ≡ pre =
          b ∙ ap (λ (l : List String). pre ++ l) nothing_left ∙ append-nil pre in
        let same : render target ≡ p = ok_text (rw (r, f, related) at h) in
        (
          (apart base target).1,
          t ∙ ap (λ (l : List String). l ++ (apart base target).1) (sym whole),
          sym same,
        )
  ]
]

rooted-append : (s t : String) → is_abs s ≡ true → is_abs (concat s t) ≡ true
unfolding has_prefix
rooted-append String.[] t h = cc
rooted-append (String.◌∷◌ c s) t h = rw append.cons (unfold has_prefix in h)

join_slash-rooted :
    (s : String) (ss : List String) → is_abs s ≡ true → is_abs (join_slash (s ∷ ss)) ≡ true
unfolding join_slash
join_slash-rooted s [] h = h
join_slash-rooted s (t ∷ ts) h = rooted-append s (concat "/" (join_slash (t ∷ ts))) h

rooted-ne : (s : String) → is_abs s ≡ true → s == "" ≡ false
rooted-ne s h = ground (arith, eq_iff s "", nothing_rooted)
  where
    nothing_rooted : is_abs "" ≡ false
    nothing_rooted = unfold has_prefix in refl

-- What is joined to a rooted path is rooted.
join-rooted :
    (s : String) (ss : List String)
    → is_abs s ≡ true
    → (ts : List String) × All Good ts × (join (s ∷ ss) ≡ render ts)
unfolding join
join-rooted s ss h =
    let (ts, g, e) = clean-rooted (join_slash (s ∷ ss)) (join_slash-rooted s ss h) in
    (ts, g, rw (rooted-ne s h) e)

-- What a path becomes, where the working directory is a rooted path.
abs-rooted :
    (getwd : Result String) (path p : String)
    → ((wd : String) → getwd ≡ ok wd → is_abs wd ≡ true)
    → abs getwd path ≡ ok p
    → (ss : List String) × All Good ss × (p ≡ render ss)
unfolding abs
abs-rooted getwd path p rooted h = elim (Bool-cases (is_abs path)) [
  | inl t ↦ let (ss, g, e) = clean-rooted path t in (ss, g, sym (ok_text (rw (t, abs) at h)) ∙ e)
  | inr f ↦ elim (Result-cases getwd) [
    | inr (e, q) ↦ cc (rw (f, q, abs) at h)
    | inl (wd, q) ↦
        let (ss, g, e) = join-rooted wd (path ∷ []) (rooted wd q) in
        (ss, g, sym (ok_text (rw (f, q, abs) at h)) ∙ e)
  ]
]

All-behind : (base rest : List String) → All Good (base ++ rest) → All Good rest
All-behind [] rest h = h
All-behind (b ∷ base) rest h = All-behind base rest h.1

annotated : (what : String) (r : Result String) (p : String) → annotate what r ≡ ok p → r ≡ ok p
annotated what (ok q) p h = cc
annotated what (err e) p h = cc

module _ (getwd : Result String) (root : String) (elem : List String) (p : String) where
  -- The steps of a call that succeeds.
  join_under_root_steps :
      join_under_root getwd root elem ≡ ok p
      → (abs_root : String) × (abs_joined : String) × (abs getwd (trim_space root) ≡ ok abs_root)
        × (abs getwd (join (abs_root ∷ elem)) ≡ ok abs_joined)
        × (related abs_root abs_joined ≡ ok p)
  unfolding join_under_root
  join_under_root_steps h = elim (Bool-cases (trim_space root == "")) [
    | inl t ↦ cc (rw (t, join_under_root) at h)
    | inr f ↦ elim (Result-cases (check_elements elem)) [
      | inr (e, c) ↦ cc (rw (f, c, join_under_root) at h)
      | inl (u, c) ↦ elim (Result-cases (annotate "resolve root" (abs getwd (trim_space root)))) [
        | inr (e, a) ↦ cc (rw (f, c, a, join_under_root) at h)
        | inl (abs_root, a) ↦
            elim (Result-cases
              (annotate "resolve joined path" (abs getwd (join (abs_root ∷ elem))))) [
                | inr (e, b) ↦ cc (rw (f, c, a, b, join_under_root) at h)
                | inl (abs_joined, b) ↦ (
                  abs_root,
                  abs_joined,
                  annotated _ _ abs_root a,
                  annotated _ _ abs_joined b,
                  rw (f, c, a, b, join_under_root) at h,
                )
              ]
      ]
    ]
  ]

  -- A path that is joined under a root stays under it: where the working directory is a rooted path,
  -- and the call succeeds, the root and the path are rooted and made of segments that are not empty,
  -- have no slash and are neither `.` nor `..`, and the segments of the path are those of the root,
  -- then others.
  pub join_under_root_inside :
      ((wd : String) → getwd ≡ ok wd → is_abs wd ≡ true)
      → join_under_root getwd root elem ≡ ok p
      → (base : List String) × (rest : List String) × All Good base
        × All Good rest
        × (abs getwd (trim_space root) ≡ ok (render base))
        × (p ≡ render (base ++ rest))
  join_under_root_inside rooted h =
      let (abs_root, abs_joined, a, b, r) = join_under_root_steps h in
      let (base, gb, eb) = abs-rooted getwd (trim_space root) abs_root rooted a in
      let (target, gt, et) = abs-rooted getwd (join (abs_root ∷ elem)) abs_joined rooted b in
      let (rest, t, q) = below base target gb gt p (
        ap (λ (s : String). related s (render target)) (sym eb)
        ∙ ap (λ (s : String). related abs_root s) (sym et)
        ∙ r) in
      (base, rest, gb, All-behind base rest (subst (All Good) t gt), a ∙ ap ok eb, q ∙ ap render t)
