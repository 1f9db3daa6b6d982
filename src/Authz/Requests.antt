-- ===== src/Authz/Requests.antt =====
-- The requests built on a decision: several resources, anonymous callers, and the permission tests.
use mathlib.Core.List.Memᴰ
use noctaxris_gcp.Base.{
  String, Bool, true, false, ◌≡◌, refl, ◌≢◌, ◌↔◌, ◌⊎◌, inl, inr, List, [], ◌∷◌, Memᴰ, ap, subst,
  ◌∙◌, Option, some, Result, ok, arith, has_prefix, if◌then◌else◌,
}
use noctaxris_gcp.Authz.Policy.{World, Evaluator}
use noctaxris_gcp.Authz.Members.{member_identity}
use noctaxris_gcp.Authz.Evaluate.{
  evaluate, evaluate_all_users, granted_subset, test_iam_permissions,
}
use noctaxris_gcp.Authz.Allowed.{Allowed-weaken}
use noctaxris_gcp.Authz.Decision.{evaluate_complete, evaluate_all_users_sound}

module _ (granted : String → Result Bool) where
  -- One round of the loop, where the list is returned.
  subset_round :
      (p : String) (ps out : List String)
      → granted_subset granted (p ∷ ps) ≡ ok out
      → (b : Bool) × (rest : List String) × (granted p ≡ ok b)
        × (granted_subset granted ps ≡ ok rest)
        × (out ≡ (if b then p ∷ rest else rest))
  unfolding granted_subset
  subset_round p ps out h = ground arith

  kept_head :
      (b : Bool) (q : String) (rest : List String)
      → Memᴰ q (if b then q ∷ rest else rest) ⊎ (b ≡ false)
  kept_head true q rest = inl (Memᴰ.head refl)
  kept_head false q rest = inr refl

  kept_tail :
      (b : Bool) (q : String) {p : String} {rest : List String}
      → Memᴰ p rest
      → Memᴰ p (if b then q ∷ rest else rest)
  kept_tail true q m = Memᴰ.tail m
  kept_tail false q m = m

  kept_cases :
      (b : Bool) (q : String) (rest : List String) {p : String}
      → Memᴰ p (if b then q ∷ rest else rest)
      → ((b ≡ true) × (p ≡ q)) ⊎ Memᴰ p rest
  kept_cases true q rest m = elim (Memᴰ.cases_cons m) [ inl e ↦ inl (refl, e) | inr i ↦ inr i ]
  kept_cases false q rest m = inr m

  subset_kept :
      (ps out : List String) {p : String}
      → granted_subset granted ps ≡ ok out
      → Memᴰ p ps
      → granted p ≡ ok true
      → Memᴰ p out
  subset_kept [] out h m g = absurd (Memᴰ.not-nil m)
  subset_kept (q ∷ ps) out h (Memᴰ.head e) g =
      let (b, rest, a, r, c) = subset_round q ps out h in
      rw (c, e) (elim (kept_head b q rest) [ inl m ↦ m | inr f ↦ absurd (cc (g, a, ap granted e)) ])
  subset_kept (q ∷ ps) out h (Memᴰ.tail i) g =
      let (b, rest, a, r, c) = subset_round q ps out h in
      rw c (kept_tail b q (subset_kept ps rest r i g))

  subset_sound :
      (ps out : List String) {p : String}
      → granted_subset granted ps ≡ ok out
      → Memᴰ p out
      → Memᴰ p ps × (granted p ≡ ok true)
  subset_sound [] out {p} h m =
      let e : out ≡ [] = unfold granted_subset in ground arith in
      absurd (Memᴰ.not-nil (subst (Memᴰ p) e m))
  subset_sound (q ∷ ps) out {p} h m =
      let (b, rest, a, r, c) = subset_round q ps out h in
      elim (kept_cases b q rest (subst (Memᴰ p) c m)) [
        | inl (t, e) ↦ (Memᴰ.head e, ap granted e ∙ a ∙ ap ok t)
        | inr i ↦ let (j, g) = subset_sound ps rest r i in (Memᴰ.tail j, g)
      ]

-- Where `TestIamPermissions` returns a list, a permission stands in it exactly when it stands in
-- the request and `Evaluate` answers `true` for it.
pub test_iam_permissions_exact :
    (w : World) (e : Option Evaluator) (principal : String) (is_root : Bool) (resource : String)
    (permissions out : List String) (p : String)
    → test_iam_permissions w e principal is_root resource permissions ≡ ok out
    → Memᴰ p out ↔ (Memᴰ p permissions × (evaluate w e principal is_root p resource ≡ ok true))
unfolding test_iam_permissions
test_iam_permissions_exact w e principal is_root resource permissions out p h = (
  subset_sound (λ q. evaluate w e principal is_root q resource) permissions out h,
  λ x. subset_kept (λ q. evaluate w e principal is_root q resource) permissions out h x.0 x.1,
)

-- What is open to anonymous callers is open to every principal but the Identity Toolkit users:
-- with names that are not empty, the request is never answered `false`.
pub public_for_principals :
    (w : World) (e : Evaluator) (principal permission resource : String)
    → principal ≢ ""
    → permission ≢ ""
    → resource ≢ ""
    → has_prefix (member_identity principal) "user:" ≡ false
    → evaluate_all_users w (some e) permission resource ≡ ok true
    → evaluate w (some e) principal false permission resource ≢ ok false
public_for_principals w e principal permission resource a b c u h =
    evaluate_complete w e principal permission resource false a b c (
      Allowed-weaken (λ ms m. ("allUsers", m, inr (u, inl refl)))
        (evaluate_all_users_sound w e permission resource h))
