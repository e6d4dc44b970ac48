-- ===== src/Translate/Assignments.antt =====
-- The assignments of an expression in Uppaal, and statements that do them (src/utot-expr.cc).
use uppaal_to_tchecker.Base.{ℕ, Text, Option, none, some, List, [], ◌∷◌, ◌++◌, All, ◌≡◌}
use uppaal_to_tchecker.Base.Integers.{ℤ, pos}
use uppaal_to_tchecker.Outcome.{ok, ◌>>=◌}
use uppaal_to_tchecker.Utap.{
  Expr, Unary, Binary, constant, unary, binary, post_increment, pre_increment, post_decrement,
  pre_decrement, assign, ass_plus, ass_minus, ass_div, ass_mod, ass_mult, comma,
}
use uppaal_to_tchecker.Expr.{Instance, apply_binary}
use uppaal_to_tchecker.Translate.Terms.{Operator, Term, add, subtract, times, over, remains}
use uppaal_to_tchecker.Translate.Values.{Store, State, meaning, value, kind_of, operate}
use uppaal_to_tchecker.Translate.Statements.{
  Statement, nop, set, update, print_statement, print_more,
}
use uppaal_to_tchecker.Translate.Restated.{IsReadable}

-- One assignment of Uppaal: of a value, or of the target's own value changed by an operator.
pub data Assignment : Type 0 where
  skips : Assignment
  sets : Expr → Expr → Assignment
  changes : Expr → Operator → Expr → Assignment

abbrev pub operator_of_assignment : Binary → Option Operator
operator_of_assignment ass_plus = some add
operator_of_assignment ass_minus = some subtract
operator_of_assignment ass_div = some over
operator_of_assignment ass_mod = some remains
operator_of_assignment ass_mult = some times
operator_of_assignment _ = none

abbrev pub operator_of_increment : Unary → Option Operator
operator_of_increment post_increment = some add
operator_of_increment pre_increment = some add
operator_of_increment post_decrement = some subtract
operator_of_increment pre_decrement = some subtract
operator_of_increment _ = none

abbrev pub changed_by : Option Operator → Expr → Expr → Assignment
changed_by none a b = skips
changed_by (some k) a b = changes a k b

-- The assignments of an expression, in their order.
unfoldable pub assignments : Expr → List Assignment
assignments (binary assign a b) = sets a b ∷ []
assignments (binary comma a b) = assignments a ++ assignments b
assignments (binary k a b) = changed_by (operator_of_assignment k) a b ∷ []
assignments (unary k a) = changed_by (operator_of_increment k) a (constant (pos 1)) ∷ []
assignments _ = skips ∷ []

module _ (p : Instance) (σ : State) (w : Store) where
  -- The term is worth what the expression is worth, whenever that has a value.
  abbrev pub Worth : Expr → Term → Type 0
  Worth e t = (n : ℕ) (v : ℤ) → meaning p σ n e ≡ ok v → value w t ≡ ok v

  -- The statement has the target and the new value of the assignment.
  abbrev pub Does : Assignment → Statement → Type 0
  Does skips nop = Unit
  Does (sets a b) (set t s) = Worth a t × Worth b s
  Does (changes a k b) (update t k' s r) =
      Worth a t
      × ((n : ℕ) (v : ℤ)
          → (meaning p σ n a >>= λ x. meaning p σ n b >>= λ y. apply_binary (kind_of k) x y) ≡ ok v
          → operate k' (value w s) (value w r) ≡ ok v)
  Does _ _ = ⊥

  abbrev pub DoAll : List Assignment → List Statement → Type 0
  DoAll [] [] = Unit
  DoAll (x ∷ xs) (s ∷ ss) = Does x s × DoAll xs ss
  DoAll _ _ = ⊥

  pub DoAll-append :
      (xs ys : List Assignment) (ss ts : List Statement)
      → DoAll xs ss
      → DoAll ys ts
      → DoAll (xs ++ ys) (ss ++ ts)
  DoAll-append [] ys [] ts h k = k
  DoAll-append [] ys (s ∷ ss) ts h k = absurd h
  DoAll-append (x ∷ xs) ys [] ts h k = absurd h
  DoAll-append (x ∷ xs) ys (s ∷ ss) ts h k = (h.0, DoAll-append xs ys ss ts h.1 k)

  -- A text of the assignments.
  abbrev pub Performs : List Assignment → Text → Type 0
  Performs xs text =
      (s : Statement) × (ss : List Statement) × (text ≡ print_statement s ++ print_more ss)
      × (IsReadable s × All IsReadable ss)
      × DoAll xs (s ∷ ss)
