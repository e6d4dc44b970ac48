-- ===== src/Translate/Ends.antt =====
-- Translations of expressions where constants have a rank (src/utot-expr.cc).
use uppaal_to_tchecker.Base.{ℕ, zero, suc, ◌<◌, Text, Option, none, some, ◌≡◌, refl, arith}
use uppaal_to_tchecker.Base.Integers.{pos}
use uppaal_to_tchecker.Outcome.{Outcome}
use uppaal_to_tchecker.Outcome.Ends.{Ends, Ends-ok, Ends-suc, ending}
use uppaal_to_tchecker.Utap.{
  Expr, Ty, Utap, constant, identifier, unary, binary, inline_if, array, sync_on, logical_not,
  unary_minus, logical_or, assign, comma,
}
use uppaal_to_tchecker.Prefix.{Prefix}
use uppaal_to_tchecker.Expr.{Instance, bound, eval_integer_constant, compute_range_bounds}
use uppaal_to_tchecker.Expr.Ends.{IsRanked, Below, Below-none, eval-Ends}
use uppaal_to_tchecker.Arrays.Ends.{compute_range_bounds-Ends, is_one_dim_array_variable-Ends}
use uppaal_to_tchecker.Arrays.{is_one_dim_array_variable}
use uppaal_to_tchecker.Translate.{
  symbol_text, replaced, binary_case, binary_op, event_kind, expression_kind,
  translate_event_expression, translate_expression, assign_op, increment_op, assign_binary_op,
  translate_assignment,
}

replaced-Ends :
    (again : ℕ → ℕ → Expr → Outcome Text) (o : Option Expr) (name : Text)
    → ((e : Expr) → o ≡ some e → Ends (λ g f. again g f e))
    → Ends (λ g f. replaced (again g f) o name)
replaced-Ends again none name h = Ends-ok name
replaced-Ends again (some e) name h = h e refl

binary_case-Ends :
    (again : ℕ → ℕ → Expr → Outcome Text) (o : Option Text) (a b : Expr)
    → Ends (λ g f. again g f a)
    → Ends (λ g f. again g f b)
    → Ends (λ g f. binary_case (again g f) o a b)
binary_case-Ends again none a b x y = search ending
binary_case-Ends again (some op) a b x y = search (ending, x, y) depth 8

assign_binary_op-Ends :
    (again : ℕ → ℕ → Expr → Outcome Text) (o : Option Text) (a b : Expr)
    → Ends (λ g f. again g f a)
    → Ends (λ g f. again g f b)
    → Ends (λ g f. assign_binary_op (again g f) o a b)
assign_binary_op-Ends again none a b x y = search ending
assign_binary_op-Ends again (some op) a b x y = search (ending, x, y) depth 8

module _ (u : Utap) (p : Instance) (rank : Expr → ℕ) (h : IsRanked u rank) (under : Below rank p)
    (ctx : Prefix) where
  evals : (e : Expr) → Ends (λ g f. eval_integer_constant u p g e)
  evals = eval-Ends u rank h p under

  bounds : (t : Ty) → Ends (λ g f. compute_range_bounds u p g t)
  bounds = compute_range_bounds-Ends u p evals

  one_dim : (e : Expr) → Ends (λ g f. is_one_dim_array_variable u p g e)
  one_dim = is_one_dim_array_variable-Ends u p evals

  event_kind-Ends :
      (again : ℕ → ℕ → Expr → Outcome Text) (e : Expr)
      → ((d : Expr) → rank d < rank e → Ends (λ g f. again g f d))
      → Ends (λ g f. event_kind u p g ctx (again g f) e)
  unfolding event_kind
  event_kind-Ends again (identifier s) below =
      replaced-Ends again (bound p s) (symbol_text u ctx s) (λ e q. below e (under s e q))
  event_kind-Ends again (array a i) below =
      let base = below a (h.base_lt a i) in search (ending, evals, bounds, base) depth 14
  event_kind-Ends again (sync_on d e) below = below e (h.label_lt d e)
  event_kind-Ends again _ below = search ending

  event-Ends :
      (n : ℕ) (e : Expr) → rank e < n → Ends (λ g f. translate_event_expression u p g ctx f e)
  unfolding translate_event_expression
  event-Ends zero e k = absurd (omega arith)
  event-Ends (suc n) e k =
      Ends-suc (λ g f. translate_event_expression u p g ctx f e)
        (event_kind-Ends (λ g f d. translate_event_expression u p g ctx f d) e
          (λ d l. event-Ends n d (omega arith)))

  expression_kind-Ends :
      (again event : ℕ → ℕ → Expr → Outcome Text) (e : Expr)
      → ((d : Expr) → rank d < rank e → Ends (λ g f. again g f d))
      → ((d : Expr) → Ends (λ g f. event g f d))
      → Ends (λ g f. expression_kind u p g ctx (again g f) (event g f) e)
  unfolding expression_kind
  expression_kind-Ends again event (identifier s) below label =
      replaced-Ends again (bound p s) (symbol_text u ctx s) (λ e q. below e (under s e q))
  expression_kind-Ends again event (unary logical_not a) below label =
      let x = below a (h.unary_lt logical_not a) in search (ending, x) depth 8
  expression_kind-Ends again event (unary unary_minus a) below label =
      let x = below a (h.unary_lt unary_minus a) in search (ending, x) depth 8
  expression_kind-Ends again event (binary logical_or a b) below label =
      let x = below a (h.left_lt logical_or a b) in
      let y = below b (h.right_lt logical_or a b) in search (ending, x, y) depth 8
  expression_kind-Ends again event (binary k a b) below label =
      binary_case-Ends again (binary_op k) a b (below a (h.left_lt k a b))
        (below b (h.right_lt k a b))
  expression_kind-Ends again event (inline_if c a b) below label =
      let x = below c (h.test_lt c a b) in
      let y = below a (h.then_lt c a b) in
      let z = below b (h.else_lt c a b) in search (ending, x, y, z) depth 10
  expression_kind-Ends again event (array a i) below label =
      let x = below a (h.base_lt a i) in
      let y = below i (h.index_lt a i) in search (ending, evals, one_dim, x, y) depth 14
  expression_kind-Ends again event (sync_on d e) below label = label (sync_on d e)
  expression_kind-Ends again event _ below label = search ending

  expression-Ends :
      (n : ℕ) (e : Expr) → rank e < n → Ends (λ g f. translate_expression u p g ctx f e)
  unfolding translate_expression
  expression-Ends zero e k = absurd (omega arith)
  expression-Ends (suc n) e k =
      Ends-suc (λ g f. translate_expression u p g ctx f e)
        (expression_kind-Ends (λ g f d. translate_expression u p g ctx f d)
          (λ g f d. translate_event_expression u p g ctx f d) e
          (λ d l. expression-Ends n d (omega arith))
          (λ d. event-Ends (suc (rank d)) d (omega arith)))

  pub translate_expression-Ends : (e : Expr) → Ends (λ g f. translate_expression u p g ctx f e)
  translate_expression-Ends e = expression-Ends (suc (rank e)) e (omega arith)

  pub translate_assignment-Ends : (e : Expr) → Ends (λ g f. translate_assignment u p g ctx f e)
  unfolding translate_assignment
  translate_assignment-Ends (binary assign a b) = search (ending, translate_expression-Ends) depth 8
  translate_assignment-Ends (binary comma a b) =
      let x = translate_assignment-Ends a in
      let y = translate_assignment-Ends b in search (ending, x, y) depth 8
  translate_assignment-Ends (binary k a b) =
      assign_binary_op-Ends (λ g f d. translate_expression u p g ctx f d) (assign_op k) a b
        (translate_expression-Ends a) (translate_expression-Ends b)
  translate_assignment-Ends (unary k a) =
      assign_binary_op-Ends (λ g f d. translate_expression u p g ctx f d) (increment_op k) a
        (constant (pos 1)) (translate_expression-Ends a) (translate_expression-Ends _)
  translate_assignment-Ends (constant n) =
      let x = eval-Ends u rank h none (Below-none rank) (constant n) in search (ending, x) depth 8
  translate_assignment-Ends _ = search ending
