-- ===== src/Authz/Policy.antt =====
-- The policy documents and the interfaces of internal/kernel/authz/iam.go.
use noctaxris_gcp.Base.{ℕ, String, List, Option, Bool, Result}

-- A condition; its title and description are read by nothing.
pub record Expr : Type 0 where
  pub expression : String
  pub title : String
  pub description : String

pub record Binding : Type 0 where
  pub role : String
  pub members : List String
  pub condition : Option Expr

pub record Policy : Type 0 where
  pub bindings : List Binding
  pub etag : String

-- `(policyJSON, ok, err)`: an error, no policy, or the stored document.
pub record PolicyStore : Type 0 where
  pub get_iam_policy_json : String → Result (Option String)

pub record RoleStore : Type 0 where
  pub get_role_included_permissions : String → Result (Option (List String))

pub record CrmParentStore : Type 0 where
  pub crm_parent : String → Result (Option String)

-- A nil interface or function field is `none`. A time is in nanoseconds.
pub record Evaluator : Type 0 where
  pub policies : Option PolicyStore
  pub roles : Option RoleStore
  pub parents : Option CrmParentStore
  pub now : Option ℕ

-- What `cel-go` answers for a value: a Boolean, or a value of another type.
pub data CelValue : Type 0 where
  bool : Bool → CelValue
  other : CelValue

-- `cel-go`: whether the environment is there, whether a text compiles and plans, and what its
-- program evaluates to at a time, with `none` for an error or a nil result.
pub record Cel : Type 0 where
  pub has_env : Bool
  pub compiles : String → Bool
  pub plans : String → Bool
  pub eval : String → ℕ → Option CelValue

-- What the evaluator calls outside the repository: `json.Unmarshal` into a `Policy` (`none` for an
-- error), `cel-go`, and the wall clock.
pub record World : Type 0 where
  pub unmarshal : String → Option Policy
  pub cel : Cel
  pub wall_now : ℕ
