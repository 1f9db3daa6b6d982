-- ===== src/Authz/Membership.antt =====
-- Whom the members of a binding stand for (`memberIn`, `exactMemberIn`).
use mathlib.Core.List.Memᴰ
use noctaxris_gcp.Base.{
  String, Bool, true, false, ◌≡◌, refl, sym, ◌↔◌, ◌⊎◌, inl, inr, List, [], ◌∷◌, Memᴰ, has_prefix,
  arith, eq_iff, Bool-cases, ◌==◌,
}
use noctaxris_gcp.Authz.Members.{member_among, member_in, exact_member_in}

-- A member stands for an identity if it names it, or is public and the identity is not withheld.
abbrev pub Covers : Bool → String → String → Type 0
Covers toolkit identity m =
    (m ≡ identity) ⊎ ((toolkit ≡ false) × ((m ≡ "allUsers") ⊎ (m ≡ "allAuthenticatedUsers")))

-- A member stands for the identity; Identity Toolkit users are withheld from public members.
abbrev pub Meets : String → List String → Type 0
Meets identity members =
    (m : String) × Memᴰ m members × Covers (has_prefix identity "user:") identity m

module _ (toolkit : Bool) (identity : String) where
  among_hit :
      (m : String) (ms : List String)
      → Covers toolkit identity m
      → member_among toolkit identity (m ∷ ms) ≡ true
  unfolding member_among
  among_hit m ms c =
      ground (arith, eq_iff m identity, eq_iff m "allUsers", eq_iff m "allAuthenticatedUsers")

  among_step :
      (m : String) (ms : List String)
      → member_among toolkit identity (m ∷ ms) ≡ true
      → Covers toolkit identity m ⊎ (member_among toolkit identity ms ≡ true)
  unfolding member_among
  among_step m ms h =
      ground (arith, eq_iff m identity, eq_iff m "allUsers", eq_iff m "allAuthenticatedUsers")

  among_rest :
      (m : String) (ms : List String)
      → member_among toolkit identity ms ≡ true
      → member_among toolkit identity (m ∷ ms) ≡ true
  unfolding member_among
  among_rest m ms h = ground arith

  among-Covers :
      (ms : List String)
      → member_among toolkit identity ms ≡ true
      → (m : String) × Memᴰ m ms × Covers toolkit identity m
  among-Covers [] h = unfold member_among in cc
  among-Covers (m ∷ ms) h = elim (among_step m ms h) [
    | inl c ↦ (m, Memᴰ.head refl, c)
    | inr r ↦ let (k, i, c) = among-Covers ms r in (k, Memᴰ.tail i, c)
  ]

  Covers-among :
      (ms : List String) {m : String}
      → Memᴰ m ms
      → Covers toolkit identity m
      → member_among toolkit identity ms ≡ true
  Covers-among [] i c = absurd (Memᴰ.not-nil i)
  Covers-among (k ∷ ms) (Memᴰ.head e) c = among_hit k ms (rw e at c)
  Covers-among (k ∷ ms) (Memᴰ.tail i) c = among_rest k ms (Covers-among ms i c)

-- `memberIn` answers `true` exactly when some member stands for the identity.
pub member_in_iff :
    (members : List String) (identity : String)
    → (member_in members identity ≡ true) ↔ Meets identity members
unfolding member_in
member_in_iff ms identity = (
  among-Covers (has_prefix identity "user:") identity ms,
  λ x. Covers-among (has_prefix identity "user:") identity ms x.1 x.2,
)

pub exact_member_in→mem :
    (members : List String) (want : String)
    → exact_member_in members want ≡ true
    → Memᴰ want members
unfolding exact_member_in
exact_member_in→mem [] want h = cc
exact_member_in→mem (m ∷ ms) want h = elim (Bool-cases (m == want)) [
  | inl e ↦ Memᴰ.head (sym ((eq_iff m want).0 e))
  | inr e ↦ Memᴰ.tail (exact_member_in→mem ms want (rw e at h))
]
