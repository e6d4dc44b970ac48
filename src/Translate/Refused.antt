-- ===== src/Translate/Refused.antt =====
-- What translate_expression and translate_assignment refuse (src/utot-expr.cc).
use uppaal_to_tchecker.Base.{
  ℕ, zero, suc, Text, Bool, true, false, not, ◌&&◌, Bool-cases, arith, refl, none, some, ◌≡◌, ◌≢◌,
  ◌⊎◌, inl, inr,
}
use uppaal_to_tchecker.Base.Integers.{ℤ}
use uppaal_to_tchecker.Outcome.{
  Ensures-then, Outcome, ok, Ensures, Ensures-at, Ensures-thrown, ensuring, Ensures-never,
}
use uppaal_to_tchecker.Utap.{
  Expr, Unary, Binary, Utap, Symbol, empty, constant, identifier, unary, binary, inline_if, array,
  list, sync_on, other, logical_not, unary_minus, post_increment, pre_increment, post_decrement,
  pre_decrement, logical_or, plus, minus, mult, div, modulo, logical_and, lt, le, eq, neq, ge, gt,
  assign, ass_plus, ass_minus, ass_div, ass_mod, ass_mult, comma,
}
use uppaal_to_tchecker.Prefix.{Prefix}
use uppaal_to_tchecker.Expr.{Instance, bound, is_zero, eval_integer_constant}
use uppaal_to_tchecker.Translate.{translate_expression, translate_assignment}

-- Operators that TChecker does not have.
abbrev pub is_lacking : Binary → Bool
is_lacking plus = false
is_lacking minus = false
is_lacking mult = false
is_lacking div = false
is_lacking modulo = false
is_lacking logical_and = false
is_lacking logical_or = false
is_lacking lt = false
is_lacking le = false
is_lacking eq = false
is_lacking neq = false
is_lacking ge = false
is_lacking gt = false
is_lacking _ = true

-- The kinds that have no translation.
abbrev pub is_refused : Expr → Bool
is_refused (unary logical_not a) = false
is_refused (unary unary_minus a) = false
is_refused (unary k a) = true
is_refused (binary k a b) = is_lacking k
is_refused (list es) = true
is_refused (other k es) = true
is_refused _ = false

-- An expression that has such a kind in it, or in what a parameter stands for. The index of an array
-- is left aside, as it is evaluated where the array is split.
pub data Refused (p : Instance) : Expr → Type 0 where
  by_kind : {e : Expr} → is_refused e ≡ true → Refused p e
  operand : {k : Unary} {a : Expr} → Refused p a → Refused p (unary k a)
  left : {k : Binary} {a b : Expr} → Refused p a → Refused p (binary k a b)
  right : {k : Binary} {a b : Expr} → Refused p b → Refused p (binary k a b)
  test : {c a b : Expr} → Refused p c → Refused p (inline_if c a b)
  then_part : {c a b : Expr} → Refused p a → Refused p (inline_if c a b)
  else_part : {c a b : Expr} → Refused p b → Refused p (inline_if c a b)
  of_array : {a i : Expr} → Refused p a → Refused p (array a i)
  of_mapped : {s : Symbol} {e : Expr} → bound p s ≡ some e → Refused p e → Refused p (identifier s)

no_case : (m : Outcome Text) → false ≡ true → Ensures (λ t. ⊥) m
no_case m h = cc

no_case' : (m : Outcome Text) → true ≡ false → Ensures (λ t. ⊥) m
no_case' m h = cc

module _ (u : Utap) (p : Instance) (g : ℕ) (ctx : Prefix) where
  abbrev Never : ℕ → Expr → Type 0
  Never f e = Ensures (λ t. ⊥) (translate_expression u p g ctx f e)

  by_kind-Never : (f : ℕ) (e : Expr) → is_refused e ≡ true → Never (suc f) e
  unfolding translate_expression
  by_kind-Never f (unary logical_not a) h = cc
  by_kind-Never f (unary unary_minus a) h = cc
  by_kind-Never f (binary plus a b) h = cc
  by_kind-Never f (binary minus a b) h = cc
  by_kind-Never f (binary mult a b) h = cc
  by_kind-Never f (binary div a b) h = cc
  by_kind-Never f (binary modulo a b) h = cc
  by_kind-Never f (binary logical_and a b) h = cc
  by_kind-Never f (binary logical_or a b) h = cc
  by_kind-Never f (binary lt a b) h = cc
  by_kind-Never f (binary le a b) h = cc
  by_kind-Never f (binary eq a b) h = cc
  by_kind-Never f (binary neq a b) h = cc
  by_kind-Never f (binary ge a b) h = cc
  by_kind-Never f (binary gt a b) h = cc
  by_kind-Never f (inline_if c a b) h = cc
  by_kind-Never f (identifier s) h = cc
  by_kind-Never f (constant n) h = cc
  by_kind-Never f (array a i) h = cc
  by_kind-Never f (sync_on d e) h = cc
  by_kind-Never f empty h = cc
  by_kind-Never f _ h = search (ensuring, no_case)

  binary-Never :
      (f : ℕ) (k : Binary) (a b : Expr) → Never f a ⊎ Never f b → Never (suc f) (binary k a b)
  unfolding translate_expression
  binary-Never f logical_or a b (inl h) = search (ensuring, Ensures-never, h)
  binary-Never f logical_or a b (inr h) = search (ensuring, Ensures-never, h)
  binary-Never f _ a b (inl h) = search (ensuring, Ensures-never, h)
  binary-Never f _ a b (inr h) = search (ensuring, Ensures-never, h)

  unary-Never : (f : ℕ) (k : Unary) (a : Expr) → Never f a → Never (suc f) (unary k a)
  unfolding translate_expression
  unary-Never f logical_not a h = search (ensuring, Ensures-never, h)
  unary-Never f unary_minus a h = search (ensuring, Ensures-never, h)
  unary-Never f _ a h = search ensuring

  Refused-Never : (f : ℕ) (e : Expr) → Refused p e → Never f e
  unfolding translate_expression
  Refused-Never zero e h = search ensuring
  Refused-Never (suc f) e (by_kind q) = by_kind-Never f e q
  Refused-Never (suc f) (unary k a) (operand h) = unary-Never f k a (Refused-Never f a h)
  Refused-Never (suc f) (binary k a b) (left h) = binary-Never f k a b (inl (Refused-Never f a h))
  Refused-Never (suc f) (binary k a b) (right h) = binary-Never f k a b (inr (Refused-Never f b h))
  Refused-Never (suc f) (inline_if c a b) (test h) =
      let n = Refused-Never f c h in search (ensuring, Ensures-never, n)
  Refused-Never (suc f) (inline_if c a b) (then_part h) =
      let n = Refused-Never f a h in search (ensuring, Ensures-never, n)
  Refused-Never (suc f) (inline_if c a b) (else_part h) =
      let n = Refused-Never f b h in search (ensuring, Ensures-never, n)
  Refused-Never (suc f) (array a i) (of_array h) =
      let n = Refused-Never f a h in search (ensuring, Ensures-never, n) depth 10
  Refused-Never (suc f) (identifier s) (of_mapped {e = e} q h) = rw q (Refused-Never f e h)

  -- An expression with an operator that TChecker does not have, outside the indices of its arrays, has no
  -- translation.
  pub translate_expression-refuses :
      (f : ℕ) (e : Expr) (t : Text) → Refused p e → translate_expression u p g ctx f e ≢ ok t
  translate_expression-refuses f e t h q = Ensures-at (Refused-Never f e h) t q

-- Whether an expression is an assignment, or a sequence of assignments; a number other than 0 is the
-- empty one.
abbrev pub is_assignment : Expr → Bool
is_assignment (binary assign a b) = true
is_assignment (binary comma a b) = is_assignment a && is_assignment b
is_assignment (binary ass_plus a b) = true
is_assignment (binary ass_minus a b) = true
is_assignment (binary ass_div a b) = true
is_assignment (binary ass_mod a b) = true
is_assignment (binary ass_mult a b) = true
is_assignment (unary post_increment a) = true
is_assignment (unary pre_increment a) = true
is_assignment (unary post_decrement a) = true
is_assignment (unary pre_decrement a) = true
is_assignment (constant n) = not (is_zero n)
is_assignment _ = false

module _ (u : Utap) (p : Instance) (g : ℕ) (ctx : Prefix) where
  constant-value :
      (g : ℕ) (n : ℤ) → Ensures (λ x. x ≡ n) (eval_integer_constant u none g (constant n))
  unfolding eval_integer_constant
  constant-value zero n = search ensuring
  constant-value (suc g) n = search ensuring

  is_true : (b : Bool) → not b ≡ false → b ≡ true
  is_true true h = refl
  is_true false h = cc

  comma-Never :
      (f : ℕ) (a b : Expr)
      → Ensures (λ t. ⊥) (translate_assignment u p g ctx f a)
        ⊎ Ensures (λ t. ⊥) (translate_assignment u p g ctx f b)
      → Ensures (λ t. ⊥) (translate_assignment u p g ctx f (binary comma a b))
  unfolding translate_assignment
  comma-Never f a b (inl h) = search (ensuring, Ensures-never, h)
  comma-Never f a b (inr h) = search (ensuring, Ensures-never, h)

  assignment-Never :
      (f : ℕ) (e : Expr)
      → is_assignment e ≡ false
      → Ensures (λ t. ⊥) (translate_assignment u p g ctx f e)
  unfolding translate_assignment
  assignment-Never f (binary assign a b) h = cc
  assignment-Never f (binary comma a b) h = elim (Bool-cases (is_assignment a)) [
    | inl q ↦ comma-Never f a b (inr (assignment-Never f b (ground arith)))
    | inr q ↦ comma-Never f a b (inl (assignment-Never f a q))
  ]
  assignment-Never f (constant n) h =
      Ensures-then (eval_integer_constant u none g (constant n)) _ (constant-value g n)
        λ x q. rw (q, is_true (is_zero n) h) Ensures-thrown
  assignment-Never f (unary logical_not a) h = search ensuring
  assignment-Never f (unary unary_minus a) h = search ensuring
  assignment-Never f _ h = search (ensuring, no_case')

  -- What is not a sequence of assignments has no translation as one.
  pub translate_assignment-refuses :
      (f : ℕ) (e : Expr) (t : Text)
      → is_assignment e ≡ false
      → translate_assignment u p g ctx f e ≢ ok t
  translate_assignment-refuses f e t h q = Ensures-at (assignment-Never f e h) t q
