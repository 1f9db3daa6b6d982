-- ===== src/Authz/Conditions.antt =====
-- When the condition of a binding holds (`conditionAllows`, `EvalRequestTime`).
use noctaxris_gcp.Base.{
  String, true, ◌≡◌, ◌↔◌, ◌⊎◌, inl, inr, Option, none, some, trim_space, arith, eq_iff,
  Option-cases,
}
use noctaxris_gcp.Authz.Policy.{World, Evaluator, Binding, Expr, bool}
use noctaxris_gcp.Authz.Condition.{eval_request_time, lab_now, condition_allows}

-- `cel-go` takes the text through every stage, and finds it true at the time of the lab's clock.
abbrev pub Holds : World → Option Evaluator → String → Type 0
Holds w e text =
    (w.cel.has_env ≡ true)
    × (w.cel.compiles text ≡ true)
    × (w.cel.plans text ≡ true)
    × (w.cel.eval text (lab_now w e) ≡ some (bool true))

-- A binding's condition lets it count exactly when there is none, when its text is blank, or when
-- the text holds: an error at any stage, or a result that is no Boolean, denies.
pub condition_allows_iff :
    (w : World) (e : Option Evaluator) (b : Binding)
    → (condition_allows w e b ≡ true) ↔ (
        (b.condition ≡ none)
        ⊎ ((c : Expr) × (b.condition ≡ some c)
            × ((trim_space c.expression ≡ "") ⊎ Holds w e (trim_space c.expression))))
unfolding condition_allows eval_request_time
condition_allows_iff w e b = elim (Option-cases b.condition) [
  | inl p ↦ (λ h. inl p, λ h. ground arith)
  | inr (c, p) ↦
      let blank = eq_iff (trim_space c.expression) "" in
      (λ h. inr (c, p, ground (arith, blank)), λ h. ground (arith, blank))
]
