-- ===== src/Authz/Minting.antt =====
-- Which roles can obtain or sign tokens as a service account, and what the basic roles come to.
use noctaxris_gcp.Base.{
  String, Bool, true, false, not, ◌||◌, ◌≡◌, refl, ◌⊎◌, inl, inr, List, [], ◌∷◌, Memᴰ, Option, none,
  some, ok, arith, eq_iff, ◌==◌, one_of, one_of→mem, all_pass, all_pass_mem, has_prefix, has_suffix,
  drop_prefix, concat, has_prefix-append, drop_prefix-append, Bool-cases, Option-cases,
}
use noctaxris_gcp.Authz.Policy.{Evaluator}
use noctaxris_gcp.Authz.Roles.Switch.{Case, select, select_mem}
use noctaxris_gcp.Authz.Roles.Basic.{
  basic_cases, editor_grants, editor_denies_token_creator_class, editor_refused, ordinary_verbs,
  viewer_grants, viewer_listed,
}
use noctaxris_gcp.Authz.Grants.{
  predefined_cases, predefined_service_role_grants, is_custom_role_name, default_grants,
  role_grants,
}

-- The permissions to obtain or sign tokens as a service account, those on its keys left out.
abbrev pub mint_permissions : List String
mint_permissions =
    "iam.serviceAccounts.getAccessToken" ∷ "iam.serviceAccounts.signBlob"
    ∷ "iam.serviceAccounts.signJwt" ∷ "iam.serviceAccounts.implicitDelegation"
    ∷ "iam.serviceAccounts.generateAccessToken" ∷ "iam.serviceAccounts.generateIdToken"
    ∷ "iam.serviceAccounts.getOpenIdToken" ∷ []

abbrev pub minting_roles : List String
minting_roles = "roles/owner" ∷ "roles/iam.serviceAccountTokenCreator" ∷ []

-- A case grants no minting permission, or lists minting roles only.
abbrev refuses : Case → Bool
refuses (names, grants) =
    all_pass (λ n. one_of n minting_roles) names || all_pass (λ p. not (grants p)) mint_permissions

basic_refuses : all_pass refuses basic_cases ≡ true
unfolding all_pass one_of has_prefix has_suffix drop_prefix basic_cases ordinary_verbs viewer_listed
basic_refuses = refl

predefined_refuses : all_pass refuses predefined_cases ≡ true
unfolding all_pass one_of has_prefix has_suffix drop_prefix predefined_cases
predefined_refuses = refl

case_refuses :
    (names : List String) (grants : String → Bool) (role permission : String)
    → refuses (names, grants) ≡ true
    → one_of role names ≡ true
    → Memᴰ permission mint_permissions
    → Memᴰ role minting_roles ⊎ (grants permission ≡ false)
case_refuses names grants role permission h listed m =
    elim (Bool-cases (all_pass (λ n. one_of n minting_roles) names)) [
      | inl b ↦
          inl
            (one_of→mem role minting_roles (all_pass_mem _ names b (one_of→mem role names listed)))
      | inr b ↦
          let none_granted : all_pass (λ p. not (grants p)) mint_permissions ≡ true =
            ground arith in
          let refused = all_pass_mem (λ p. not (grants p)) mint_permissions none_granted m in
          inr (ground arith)
    ]

table_refuses :
    (cases : List Case) (role permission : String) {grants : String → Bool}
    → all_pass refuses cases ≡ true
    → select role cases ≡ some grants
    → Memᴰ permission mint_permissions
    → Memᴰ role minting_roles ⊎ (grants permission ≡ false)
table_refuses cases role permission {grants} table h m =
    let (names, i, listed) = select_mem role cases h in
    case_refuses names grants role permission (all_pass_mem refuses cases table i) listed m

-- A role that no switch knows grants nothing.
default_unknown :
    (e : Option Evaluator) (role permission : String)
    → is_custom_role_name role ≡ false
    → select role predefined_cases ≡ none
    → default_grants e role permission ≡ ok false
unfolding default_grants predefined_service_role_grants one_of
default_unknown e role permission c p = rw (c, default_grants) (ground arith)

default_known :
    (e : Option Evaluator) (role permission : String) {grants : String → Bool}
    → is_custom_role_name role ≡ false
    → select role predefined_cases ≡ some grants
    → default_grants e role permission ≡ ok (grants permission)
unfolding default_grants predefined_service_role_grants
default_known e role permission c p =
    rw (c, default_grants) (rw (p, predefined_service_role_grants) refl)

default_refuses :
    (e : Option Evaluator) (role permission : String)
    → Memᴰ permission mint_permissions
    → default_grants e role permission ≡ ok true
    → Memᴰ role minting_roles ⊎ (is_custom_role_name role ≡ true)
default_refuses e role permission m h = elim (Bool-cases (is_custom_role_name role)) [
  | inl c ↦ inr c
  | inr c ↦ elim (Option-cases (select role predefined_cases)) [
    | inl p ↦ absurd (cc (h, default_unknown e role permission c p))
    | inr (grants, p) ↦
        elim (table_refuses predefined_cases role permission predefined_refuses p m) [
          | inl i ↦ inl i
          | inr r ↦ absurd (cc (h, default_known e role permission c p, r))
        ]
  ]
]

-- A role that grants one of the seven `mint_permissions`, by which a caller obtains or signs
-- tokens as a service account that is there (`iam.serviceAccounts.` with getAccessToken, signBlob,
-- signJwt, implicitDelegation, generateAccessToken, generateIdToken or getOpenIdToken), is the
-- owner, the token creator, or a custom role. The permissions to create keys are not among the
-- seven.
pub minting_roles_only :
    (e : Option Evaluator) (role permission : String)
    → Memᴰ permission mint_permissions
    → role_grants e role permission ≡ ok true
    → Memᴰ role minting_roles ⊎ (is_custom_role_name role ≡ true)
unfolding role_grants
minting_roles_only e role permission m h = elim (Option-cases (select role basic_cases)) [
  | inl p ↦ default_refuses e role permission m (rw (p, role_grants) at h)
  | inr (grants, p) ↦ elim (table_refuses basic_cases role permission basic_refuses p m) [
    | inl i ↦ inl i
    | inr r ↦ absurd (ground arith)
  ]
]

-- The tests of a viewer's permission that do not list names, with the two listed names they miss.
abbrev pub viewer_rule : String → Bool
viewer_rule p =
    has_suffix p ".get"
    || has_suffix p ".list"
    || has_suffix p ".getIamPolicy"
    || has_suffix p ".search"
    || p == "cloudasset.assets.searchAllResources"
    || p == "cloudasset.assets.listResource"

listed_follow_rule : all_pass viewer_rule viewer_listed ≡ true
unfolding all_pass viewer_listed has_suffix
listed_follow_rule = refl

rule_follows :
    (p : String)
    → p == "cloudasset.assets.searchAllResources" || p == "cloudasset.assets.listResource" ≡ true
    → one_of p viewer_listed ≡ true
rule_follows p h = elim (Bool-cases (p == "cloudasset.assets.searchAllResources")) [
  | inl e ↦
      rw ((eq_iff p "cloudasset.assets.searchAllResources").0 e)
        (unfold one_of viewer_listed in refl)
  | inr e ↦
      rw ((eq_iff p "cloudasset.assets.listResource").0 (ground arith))
        (unfold one_of viewer_listed in refl)
]

-- The viewer has exactly the permissions that end in a reading verb, and two of the asset
-- inventory: the rest of the list of names adds nothing.
pub viewer_grants_lem : (p : String) → viewer_grants p ≡ viewer_rule p
unfolding viewer_grants
viewer_grants_lem p = elim (Bool-cases (p == "")) [
  | inl e ↦ rw ((eq_iff p "").0 e) (unfold has_suffix in refl)
  | inr e ↦ elim (Bool-cases (one_of p viewer_listed)) [
    | inl m ↦
        let rule =
          all_pass_mem viewer_rule viewer_listed listed_follow_rule
            (one_of→mem p viewer_listed m) in
        ground arith
    | inr m ↦ ground (arith, rule_follows p)
  ]
]

ordinary_granted :
    all_pass (λ v. editor_grants (concat "iam.serviceAccounts." v)) ordinary_verbs ≡ true
unfolding all_pass ordinary_verbs editor_grants editor_refused one_of has_prefix has_suffix
    drop_prefix
ordinary_granted = refl

class_denied :
    (verb : String)
    → one_of verb ordinary_verbs ≡ false
    → editor_denies_token_creator_class (concat "iam.serviceAccounts." verb) ≡ true
unfolding editor_denies_token_creator_class
class_denied verb m = ground (
  arith,
  has_prefix-append "iam.serviceAccounts." verb,
  drop_prefix-append "iam.serviceAccounts." verb,
)

denied_refused : (p : String) → editor_denies_token_creator_class p ≡ true → editor_grants p ≡ false
unfolding editor_grants
denied_refused p d = ground arith

-- A permission of service account administration falls to the editor exactly when its verb is one
-- of the ordinary ones, whatever verbs the service may add.
pub editor_verbs :
    (verb : String)
    → editor_grants (concat "iam.serviceAccounts." verb) ≡ one_of verb ordinary_verbs
editor_verbs verb = elim (Bool-cases (one_of verb ordinary_verbs)) [
  | inl m ↦ rw m (
      all_pass_mem (λ v. editor_grants (concat "iam.serviceAccounts." v)) ordinary_verbs
        ordinary_granted (one_of→mem verb ordinary_verbs m))
  | inr m ↦ rw m (denied_refused (concat "iam.serviceAccounts." verb) (class_denied verb m))
]
