-- ===== src/Expr/Fuel.antt =====
-- The fuel of evaluations (src/utot-expr.cc, src/utot-decl.cc).
use uppaal_to_tchecker.Base.{ℕ, zero, suc, ◌+◌, Option, none, some, ◌≡◌, ◌≢◌, sym, ◌∙◌}
use native.Mathlib.Nat.{zero-add, suc-add}
use uppaal_to_tchecker.Base.Integers.{ℤ}
use uppaal_to_tchecker.Outcome.{
  Outcome, thrown, fault, out_of_fuel, ◌⊑◌, ⊑-refl, ⊑-starved, ⊑-keeps, refinement,
}
use uppaal_to_tchecker.Utap.{
  Expr, Ty, Utap, empty, identifier, unary, binary, inline_if, array, list, logical_and, logical_or,
  logical_not,
}
use uppaal_to_tchecker.Expr.{
  Instance, range_bounds, constant_value, eval_kind, eval_step, eval_integer_constant,
}

-- `eval'` has at least the fuel of `eval`.
module _ (u : Utap) (p : Instance) (eval eval' : Expr → Outcome ℤ)
    (more : (e : Expr) → eval e ⊑ eval' e) where
  pub range_bounds-⊑ : (t : Ty) → range_bounds u eval t ⊑ range_bounds u eval' t
  unfolding range_bounds
  range_bounds-⊑ t = search (refinement, more) depth 12

  constant_value-⊑ : (o b : Option Expr) → constant_value eval o b ⊑ constant_value eval' o b
  constant_value-⊑ (some e) b = more e
  constant_value-⊑ none (some e) = more e
  constant_value-⊑ none none = ⊑-refl thrown

  eval_kind-⊑ : (e : Expr) → eval_kind u p eval e ⊑ eval_kind u p eval' e
  unfolding eval_kind
  eval_kind-⊑ (array a i) = search (refinement, more, range_bounds-⊑) depth 15
  eval_kind-⊑ (list es) = search (refinement, more) depth 12
  eval_kind-⊑ (inline_if a b c) = search (refinement, more) depth 12
  eval_kind-⊑ (identifier s) = search (refinement, more, constant_value-⊑) depth 12
  eval_kind-⊑ (binary logical_and a b) = search (refinement, more) depth 12
  eval_kind-⊑ (binary logical_or a b) = search (refinement, more) depth 12
  eval_kind-⊑ (binary k a b) = search (refinement, more) depth 12
  eval_kind-⊑ (unary logical_not a) = search (refinement, more) depth 12
  eval_kind-⊑ _ = search (refinement, more) depth 12

  eval_step-⊑ : (e : Expr) → eval_step u p eval e ⊑ eval_step u p eval' e
  unfolding eval_step
  eval_step-⊑ empty = ⊑-refl fault
  eval_step-⊑ e = search (refinement, eval_kind-⊑) depth 6

module _ (u : Utap) (p : Instance) where
  pub eval_suc :
      (f : ℕ) (e : Expr) → eval_integer_constant u p f e ⊑ eval_integer_constant u p (suc f) e
  unfolding eval_integer_constant
  eval_suc zero e = ⊑-starved (eval_integer_constant u p 1 e)
  eval_suc (suc f) e =
      eval_step-⊑ u p (eval_integer_constant u p f) (eval_integer_constant u p (suc f)) (eval_suc f)
        e

  -- An evaluation that kept within its fuel has the same outcome with any further fuel.
  pub eval_more :
      (f k : ℕ) (e : Expr)
      → eval_integer_constant u p f e ≢ out_of_fuel
      → eval_integer_constant u p (k + f) e ≡ eval_integer_constant u p f e
  eval_more f zero e n = rw zero-add
  eval_more f (suc k) e n =
      let ih = eval_more f k e n in
      rw suc-add (⊑-keeps (eval_suc (k + f) e) (λ q. n (sym ih ∙ q)) ∙ ih)
