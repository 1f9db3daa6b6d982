-- ===== src/Authz/Condition.antt =====
-- The conditions of bindings: `EvalRequestTime` of internal/kernel/celutil and `conditionAllows` of
-- internal/kernel/authz/iam.go.
use noctaxris_gcp.Base.{
  ℕ, String, Bool, true, false, not, ◌==◌, Option, none, some, trim_space, if◌then◌else◌,
}
use noctaxris_gcp.Authz.Policy.{Binding, Evaluator, World, Cel, CelValue, bool, other}

-- Errors and results that are no Booleans deny.
cel_allows : Option CelValue → Bool
cel_allows none = false
cel_allows (some (bool b)) = b
cel_allows (some other) = false

unfoldable pub eval_request_time : Cel → String → ℕ → Bool
unfolding cel_allows
eval_request_time cel expr now =
    let trimmed = trim_space expr in
    if trimmed == ""
    then true
    else if not cel.has_env
    then false
    else if not (cel.compiles trimmed)
    then false
    else if not (cel.plans trimmed)
    then false
    else cel_allows (cel.eval trimmed now)

unfoldable pub lab_now : World → Option Evaluator → ℕ
lab_now w none = w.wall_now
lab_now w (some e) = elim e.now [ none ↦ w.wall_now | some t ↦ t ]

unfoldable pub condition_allows : World → Option Evaluator → Binding → Bool
unfolding lab_now
condition_allows w e b = elim b.condition [
  | none ↦ true
  | some c ↦
      if trim_space c.expression == ""
      then true
      else eval_request_time w.cel c.expression (lab_now w e)
]
