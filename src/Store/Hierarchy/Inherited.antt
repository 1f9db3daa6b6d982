-- ===== src/Store/Hierarchy/Inherited.antt =====
-- The store's parent links (internal/store/appengine_crm.go) under the evaluator
-- (internal/kernel/authz/iam.go): what a binding on the organization gives.
use noctaxris_gcp.Base.{
  String, true, false, ◌==◌, ◌≡◌, refl, ◌≢◌, ap, [], ◌∷◌, ◌++◌, List, Memᴰ, none, some, ok, arith,
  eq_iff, concat, has_prefix, trim_prefix, contains, split_at, trim_space, one_of,
  has_prefix-append, has_prefix-apart, drop_prefix-append,
}
use noctaxris_gcp.Authz.Policy.{World, Evaluator, PolicyStore}
use noctaxris_gcp.Authz.Members.{member_identity}
use noctaxris_gcp.Authz.Membership.{Meets}
use noctaxris_gcp.Authz.Chain.{
  resource_policy_chain, is_crm_hierarchy_resource, find_anchor, crm_walk, policy_chain,
  crm_ancestry_max_depth,
}
use noctaxris_gcp.Authz.Inheritance.{nested, nested-ne, resource_policy_chain-nested}
use noctaxris_gcp.Authz.Evaluate.{evaluate}
use noctaxris_gcp.Authz.Allowed.{Bound}
use noctaxris_gcp.Authz.Decision.{evaluate_complete}
use noctaxris_gcp.Store.Hierarchy.Types.{HierarchyDb, default_organization_name}
use noctaxris_gcp.Store.Hierarchy.Parents.{bare, crm_parent, crm_parents}

-- A text without a slash does not contain one.
contains_slash : (s : String) → split_at b'/' s ≡ none → contains s "/" ≡ false
unfolding split_at contains has_prefix
contains_slash String.[] h = refl
contains_slash (String.◌∷◌ c s) h = let ih = contains_slash s (ground arith) in ground arith

prefixes_apart :
    (has_prefix "projects/" "organizations/" ≡ false)
    × (has_prefix "organizations/" "projects/" ≡ false)
    × (has_prefix "projects/" "folders/" ≡ false)
    × (has_prefix "folders/" "projects/" ≡ false)
unfolding has_prefix
prefixes_apart = (refl, refl, refl, refl)

organization_prefix : has_prefix default_organization_name "organizations/" ≡ true
unfolding has_prefix
organization_prefix = refl

nothing_has_prefix : has_prefix "" "projects/" ≡ false
unfolding has_prefix
nothing_has_prefix = refl

organization_apart : has_prefix default_organization_name "projects/" ≡ false
unfolding has_prefix
organization_apart = refl

module _ (id : String) (named : id ≢ "") (plain : split_at b'/' id ≡ none) where
  abbrev project : String
  project = concat "projects/" id

  project-bare : bare project "projects/" ≡ true
  unfolding trim_prefix
  project-bare =
      rw
        (
          has_prefix-append "projects/" id,
          drop_prefix-append "projects/" id,
          contains_slash id plain,
        )
        (ground (arith, eq_iff id ""))

  project_parent :
      (db : HierarchyDb)
      → trim_space project ≡ project
      → crm_parent db project ≡ some default_organization_name
  unfolding crm_parent
  project_parent db t =
      rw
        (
          t,
          has_prefix-apart "projects/" "organizations/" id prefixes_apart.0 prefixes_apart.1,
          has_prefix-apart "projects/" "folders/" id prefixes_apart.2 prefixes_apart.3,
          has_prefix-append "projects/" id,
          project-bare,
        )
        refl

  project_in_hierarchy : is_crm_hierarchy_resource project ≡ true
  unfolding is_crm_hierarchy_resource
  project_in_hierarchy =
      rw
        (
          has_prefix-append "projects/" id,
          drop_prefix-append "projects/" id,
          contains_slash id plain,
        )
        (ground (arith, eq_iff id ""))

  resource_policy_chain-project : resource_policy_chain project ≡ project ∷ []
  unfolding resource_policy_chain
  resource_policy_chain-project =
      rw (has_prefix-append "projects/" id, drop_prefix-append "projects/" id, plain) refl

  project-ne : project ≢ ""
  project-ne e = cc (
    has_prefix-append "projects/" id,
    ap (λ (s : String). has_prefix s "projects/") e,
    nothing_has_prefix,
  )

  project_named : project == "" ≡ false
  project_named = ground (arith, eq_iff project "", project-ne)

  -- No text below a project is the organization.
  organization-ne :
      (s : String) → has_prefix s "projects/" ≡ true → default_organization_name == s ≡ false
  organization-ne s h = ground (arith, eq_iff default_organization_name s, organization_apart)

  module _ (db : HierarchyDb) (trimmed : trim_space project ≡ project) where
    walk_up :
        (out seen : List String)
        → one_of default_organization_name seen ≡ false
        → crm_walk (crm_parents db) crm_ancestry_max_depth out seen project
          ≡ ok (out ++ default_organization_name ∷ [])
    unfolding crm_walk crm_parents
    walk_up out seen f = rw (project_parent db trimmed, f, organization_prefix, crm_walk) refl

    project_chain :
        (e : Evaluator)
        → e.parents ≡ some (crm_parents db)
        → policy_chain (some e) project ≡ ok (project ∷ default_organization_name ∷ [])
    unfolding policy_chain find_anchor one_of
    project_chain e p =
        rw (p, resource_policy_chain-project, policy_chain, project_in_hierarchy)
          (rw project_named (walk_up (project ∷ []) (project ∷ []) not_seen))
      where
        not_seen : one_of default_organization_name (project ∷ []) ≡ false
        not_seen = rw (organization-ne project (has_prefix-append "projects/" id)) refl

    nested_chain :
        (e : Evaluator) (rest : String)
        → e.parents ≡ some (crm_parents db)
        → policy_chain (some e) (nested id rest)
          ≡ ok (nested id rest ∷ project ∷ default_organization_name ∷ [])
    unfolding policy_chain find_anchor one_of
    nested_chain e rest p =
        rw (p, resource_policy_chain-nested id rest named plain, policy_chain, project_in_hierarchy)
          (rw project_named
            (walk_up (nested id rest ∷ project ∷ []) (nested id rest ∷ project ∷ []) not_seen))
      where
        not_seen : one_of default_organization_name (nested id rest ∷ project ∷ []) ≡ false
        not_seen =
            rw
              (
                organization-ne project (has_prefix-append "projects/" id),
                organization-ne (nested id rest) (has_prefix-append "projects/" _),
              )
              refl

module _ (w : World) (db : HierarchyDb) (e : Evaluator) (store : PolicyStore)
    (principal permission id : String) where
  -- With the store's parent links, a binding on the default organization counts for every project
  -- and all that lies in it: where the identifier of the project is not empty, has no slash and no
  -- blanks around it, and the organization's stored policy grants a principal the permission, the
  -- request of this principal is never answered `false` on the project, nor on a resource below it.
  pub organization_grants :
      id ≢ ""
      → split_at b'/' id ≡ none
      → trim_space (concat "projects/" id) ≡ concat "projects/" id
      → principal ≢ ""
      → permission ≢ ""
      → e.parents ≡ some (crm_parents db)
      → e.policies ≡ some store
      → Bound w e permission store (Meets (member_identity principal)) default_organization_name
      → (evaluate w (some e) principal false permission (concat "projects/" id) ≢ ok false)
        × ((rest : String)
            → evaluate w (some e) principal false permission (nested id rest) ≢ ok false)
  organization_grants named plain trimmed a b parents policies bound = (
    evaluate_complete w e principal permission (concat "projects/" id) false a b
        (project-ne id named plain)
        (record {
          store = store;
          has_store = policies;
          chain = _;
          has_chain = project_chain id named plain db trimmed e parents;
          place = default_organization_name;
          on_chain = Memᴰ.tail (Memᴰ.head refl);
          bound = bound;
        }),
    λ rest.
        evaluate_complete w e principal permission (nested id rest) false a b (nested-ne id rest)
          (record {
            store = store;
            has_store = policies;
            chain = _;
            has_chain = nested_chain id named plain db trimmed e rest parents;
            place = default_organization_name;
            on_chain = Memᴰ.tail (Memᴰ.tail (Memᴰ.head refl));
            bound = bound;
          }),
  )
