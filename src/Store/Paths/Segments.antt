-- ===== src/Store/Paths/Segments.antt =====
-- Cleaned rooted paths as lists of segments (internal/store/pathsafe.go, through Go's path/filepath).
use mathlib.Core.List.{reverse, reverse_aux, reverse-reverse}
use Prim.Native.Char.{Char, code}
use Prim.Native.String.append
use noctaxris_gcp.Base.{
  String, true, false, ◌==◌, ◌||◌, ◌≡◌, refl, ap, ◌∙◌, ◌≢◌, inl, inr, List, [], ◌∷◌, arith, eq_iff,
  concat, has_prefix-append, split_on, split_when, prepend, eqb, All, Bool-cases,
}
use noctaxris_gcp.Store.Paths.Filepath.{
  join_slash, is_abs, popped, clean_step, clean_loop, clean_segments, clean,
}

-- A text without a slash.
abbrev pub Segment : String → Type 0
Segment s = split_on b'/' s ≡ s ∷ []

Segment-cons :
    (c : Char) (s : String) → eqb (code c) b'/' ≡ false → Segment s → Segment (String.◌∷◌ c s)
unfolding split_on
Segment-cons c s f h = rw (f, split_when, h) refl

split_on-ne : (s : String) → split_on b'/' s ≢ []
unfolding split_on
split_on-ne String.[] h = cc
split_on-ne (String.◌∷◌ c s) h = elim (Bool-cases (eqb (code c) b'/')) [
  | inl t ↦ cc (rw (t, split_when) at h)
  | inr f ↦ prepend-ne c (split_on b'/' s) (rw (f, split_when) at h)
]
  where
    prepend-ne : (c : Char) (ts : List String) → prepend c ts ≢ []
    prepend-ne c [] h = cc
    prepend-ne c (t ∷ ts) h = cc

unprepended :
    (c : Char) (s : String) (ts : List String)
    → ts ≢ []
    → prepend c ts ≡ String.◌∷◌ c s ∷ []
    → ts ≡ s ∷ []
unprepended c s [] n h = absurd (n refl)
unprepended c s (t ∷ ts) n h = cc

Segment-parts :
    (c : Char) (s : String) → Segment (String.◌∷◌ c s) → (eqb (code c) b'/' ≡ false) × Segment s
unfolding split_on
Segment-parts c s h = elim (Bool-cases (eqb (code c) b'/')) [
  | inl t ↦ cc (rw (t, split_when) at h)
  | inr f ↦ (f, unprepended c s (split_on b'/' s) (split_on-ne s) (rw (f, split_when) at h))
]

prepend-Segment :
    (c : Char) (ts : List String)
    → eqb (code c) b'/' ≡ false
    → All Segment ts
    → All Segment (prepend c ts)
prepend-Segment c [] f h = (Segment-cons c "" f (unfold split_on in refl), tt)
prepend-Segment c (t ∷ ts) f h = (Segment-cons c t f h.0, h.1)

split_on-Segment : (s : String) → All Segment (split_on b'/' s)
unfolding split_on
split_on-Segment String.[] = (refl, tt)
split_on-Segment (String.◌∷◌ c s) = elim (Bool-cases (eqb (code c) b'/')) [
  | inl t ↦ rw (t, split_when) (refl, split_on-Segment s)
  | inr f ↦ rw (f, split_when) (prepend-Segment c (split_on b'/' s) f (split_on-Segment s))
]

-- A segment before a slash is split off.
split_on-slash :
    (s t : String) → Segment s → split_on b'/' (concat s (concat "/" t)) ≡ s ∷ split_on b'/' t
unfolding split_on
split_on-slash String.[] t h = rw (append.nil, append.cons, append.nil) refl
split_on-slash (String.◌∷◌ c s) t h =
    let (f, g) = Segment-parts c s h in
    rw append.cons (rw (f, split_when, split_on-slash s t g) refl)

-- The segments of a cleaned rooted path.
pub record Good (s : String) : Type 0 where
  pub segment : Segment s
  pub some_text : s ≢ ""
  pub no_dot : s ≢ "."
  pub no_dots : s ≢ ".."

-- A rooted path by its segments.
abbrev pub render : List String → String
render ss = concat "/" (join_slash ss)

split_on-join_slash :
    (s : String) (ss : List String)
    → All Good (s ∷ ss)
    → split_on b'/' (join_slash (s ∷ ss)) ≡ s ∷ ss
unfolding join_slash
split_on-join_slash s [] h = h.0.segment
split_on-join_slash s (t ∷ ts) h =
    split_on-slash s (join_slash (t ∷ ts)) h.0.segment
    ∙ ap (λ (l : List String). s ∷ l) (split_on-join_slash t ts h.1)

step-Good :
    (s : String) (out : List String) → Segment s → All Good out → All Good (clean_step true out s)
unfolding clean_step popped
step-Good s out seg h = elim (Bool-cases (s == "" || s == ".")) [
  | inl t ↦ rw t h
  | inr f ↦ elim (Bool-cases (s == "..")) [
    | inl t ↦ rw (f, t) (popped-Good out h)
    | inr g ↦
        rw (f, g)
          (
            record {
              segment = seg;
              some_text = λ e. ground (arith, eq_iff s "");
              no_dot = λ e. ground (arith, eq_iff s ".");
              no_dots = λ e. ground (arith, eq_iff s "..");
            },
            h,
          )
  ]
]
  where
    popped-Good : (out : List String) → All Good out → All Good (popped true out)
    popped-Good [] h = tt
    popped-Good (x ∷ out) h = rw (kept x h.0) h.1
      where
        kept : (x : String) → Good x → x == ".." ≡ false
        kept x g = ground (arith, eq_iff x "..", g.no_dots)

loop-Good :
    (ss out : List String) → All Segment ss → All Good out → All Good (clean_loop true out ss)
unfolding clean_loop
loop-Good [] out seg h = h
loop-Good (s ∷ ss) out seg h = loop-Good ss (clean_step true out s) seg.1 (step-Good s out seg.0 h)

reverse_aux-Good :
    (xs acc : List String) → All Good xs → All Good acc → All Good (reverse_aux xs acc)
reverse_aux-Good [] acc h a = a
reverse_aux-Good (x ∷ xs) acc h a = reverse_aux-Good xs (x ∷ acc) h.1 (h.0, a)

-- A cleaned rooted path is a slash and good segments.
pub clean-rooted :
    (path : String)
    → is_abs path ≡ true
    → (ss : List String) × All Good ss × (clean path ≡ render ss)
unfolding clean clean_segments
clean-rooted path a = (
  clean_segments path,
  rw (a, clean_segments)
      (reverse_aux-Good (clean_loop true [] (split_on b'/' path)) []
        (loop-Good (split_on b'/' path) [] (split_on-Segment path) tt) tt),
  rw a refl,
)

loop_kept : (ss out : List String) → All Good ss → clean_loop true out ss ≡ reverse_aux ss out
unfolding clean_loop clean_step
loop_kept [] out h = refl
loop_kept (s ∷ ss) out h = rw (kept, clean_step) (loop_kept ss (s ∷ out) h.1)
  where
    kept : clean_step true out s ≡ s ∷ out
    kept =
        ground
          (arith, eq_iff s "", eq_iff s ".", eq_iff s "..", h.0.some_text, h.0.no_dot, h.0.no_dots)

slash_first : (t : String) → split_on b'/' (concat "/" t) ≡ "" ∷ split_on b'/' t
unfolding split_on
slash_first t = rw (append.cons, append.nil) refl

join_loop :
    (ss : List String)
    → All Good ss
    → clean_loop true [] (split_on b'/' (join_slash ss)) ≡ reverse ss
join_loop [] h = unfold clean_loop clean_step join_slash split_on in refl
join_loop (s ∷ ss) h = rw (split_on-join_slash s ss h) (loop_kept (s ∷ ss) [] h)

-- Such a path has its segments.
pub clean_segments-render : (ss : List String) → All Good ss → clean_segments (render ss) ≡ ss
unfolding clean_segments
clean_segments-render ss h =
    rw (has_prefix-append "/" (join_slash ss), slash_first (join_slash ss))
      (unfold clean_loop clean_step in rw (join_loop ss h) (reverse-reverse ss))
