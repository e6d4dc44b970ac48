-- ===== src/Expr/Ends.antt =====
-- Evaluations in a model whose constants have a rank (src/utot-expr.cc).
use mathlib.Core.Path.{subst}
use uppaal_to_tchecker.Base.{
  ℕ, suc, ◌-◌, ◌<◌, true, none, some, [], ◌∷◌, ◌==◌, ◌≡◌, arith, Bool-cases, inl, inr, All,
}
use uppaal_to_tchecker.Base.Integers.{ℤ}
use uppaal_to_tchecker.Outcome.{ok}
use uppaal_to_tchecker.Outcome.Ends.{Ends, ends}
use uppaal_to_tchecker.Utap.{
  Symbol, Expr, Exprs, Unary, Binary, Utap, constant, identifier, unary, binary, inline_if, array,
  list, sync_on, child, Sync,
}
use uppaal_to_tchecker.Expr.{
  Instance, Mapping, mapped, bound, initialiser, array_elements, at_index, or_fault, strip_labels,
  eval_integer_constant,
}
use uppaal_to_tchecker.Expr.Fuel.{eval_more}
use uppaal_to_tchecker.Expr.Halts.{Ranked, eval_total}
use uppaal_to_tchecker.Model.{assign_symbol, assign_all}

-- The constants of a model and what they are defined from are ranked, whatever the parameters are: an
-- expression is above its parts, a constant above its initialiser, and the elements of an array above
-- those of its initialiser.
pub record IsRanked (u : Utap) (rank : Expr → ℕ) : Type 0 where
  pub unary_lt : (k : Unary) (a : Expr) → rank a < rank (unary k a)
  pub left_lt : (k : Binary) (a b : Expr) → rank a < rank (binary k a b)
  pub right_lt : (k : Binary) (a b : Expr) → rank b < rank (binary k a b)
  pub test_lt : (c a b : Expr) → rank c < rank (inline_if c a b)
  pub then_lt : (c a b : Expr) → rank a < rank (inline_if c a b)
  pub else_lt : (c a b : Expr) → rank b < rank (inline_if c a b)
  pub base_lt : (a i : Expr) → rank a < rank (array a i)
  pub index_lt : (a i : Expr) → rank i < rank (array a i)
  pub label_lt : (d : Sync) (e : Expr) → rank e < rank (sync_on d e)
  pub low_lt :
      (a i : Expr)
      → rank (u.get_range (strip_labels (u.get_array_size (u.type_of a)))).0 < rank (array a i)
  pub high_lt :
      (a i : Expr)
      → rank (u.get_range (strip_labels (u.get_array_size (u.type_of a)))).1 < rank (array a i)
  pub element_lt :
      (a i es e : Expr) (n : ℤ)
      → array_elements u a ≡ ok es
      → at_index es n ≡ ok e
      → rank e < rank (array a i)
  pub item_lt :
      (es : Exprs) (n : ℕ) (e : Expr)
      → or_fault (child (list es) n) ≡ ok e
      → rank e < rank (list es)
  pub chosen_lt :
      (es : Exprs) (a e : Expr) (n : ℤ)
      → or_fault (child (list es) 0) ≡ ok a
      → at_index a n ≡ ok e
      → rank e < rank (list es)
  pub initial_lt :
      (s : ℕ) (e : Expr) → initialiser (u.variable s) ≡ some e → rank e < rank (identifier s)
  -- a value of a parameter or of a selection
  pub constant_lt : (s : ℕ) (n : ℤ) → rank (constant n) < rank (identifier s)

-- Every symbol of a mapping is above what it stands for.
abbrev pub IsUnder : (Expr → ℕ) → Mapping → Type 0
IsUnder rank m = All (λ r. rank r.1 < rank (identifier r.0)) m

abbrev pub Below : (Expr → ℕ) → Instance → Type 0
Below rank p = (s : Symbol) (e : Expr) → bound p s ≡ some e → rank e < rank (identifier s)

module _ (rank : Expr → ℕ) where
  pub Below-none : Below rank none
  unfolding bound
  Below-none s e q = cc

  pub IsUnder-Below : (m : Mapping) → IsUnder rank m → Below rank (some m)
  unfolding bound mapped
  IsUnder-Below [] h s e q = cc
  IsUnder-Below ((t, x) ∷ m) h s e q = elim (Bool-cases (t == s)) [
    | inl here ↦ first t s x e (h.0) here (rw here at q)
    | inr there ↦ IsUnder-Below m h.1 s e (rw there at q)
  ]
    where
      first :
          (t s : ℕ) (x e : Expr)
          → rank x < rank (identifier t)
          → (t == s) ≡ true
          → some x ≡ some e
          → rank e < rank (identifier s)
      first t s x e k here q =
          let same_symbol : t ≡ s = ground arith in
          let same_expr : x ≡ e = cc in rw (← same_symbol, ← same_expr) k

  pub assign_symbol-IsUnder :
      (s : Symbol) (e : Expr) (m : Mapping)
      → rank e < rank (identifier s)
      → IsUnder rank m
      → IsUnder rank (assign_symbol s e m)
  unfolding assign_symbol
  assign_symbol-IsUnder s e [] k h = (k, tt)
  assign_symbol-IsUnder s e ((t, x) ∷ m) k h = elim (Bool-cases (t == s)) [
    | inl here ↦ rw here (k, h.1)
    | inr there ↦ rw there (h.0, assign_symbol-IsUnder s e m k h.1)
  ]

  pub assign_all-IsUnder :
      (ms m : Mapping) → IsUnder rank ms → IsUnder rank m → IsUnder rank (assign_all ms m)
  unfolding assign_all
  assign_all-IsUnder [] m h k = k
  assign_all-IsUnder ((s, e) ∷ ms) m h k =
      assign_all-IsUnder ms (assign_symbol s e m) h.1 (assign_symbol-IsUnder s e m h.0 k)

module _ (u : Utap) (rank : Expr → ℕ) (h : IsRanked u rank) where
  IsRanked-Ranked : (p : Instance) → Below rank p → Ranked u p rank
  IsRanked-Ranked p b = record {
    unary_lt = h.unary_lt;
    left_lt = h.left_lt;
    right_lt = h.right_lt;
    test_lt = h.test_lt;
    then_lt = h.then_lt;
    else_lt = h.else_lt;
    index_lt = h.index_lt;
    low_lt = h.low_lt;
    high_lt = h.high_lt;
    element_lt = h.element_lt;
    item_lt = h.item_lt;
    chosen_lt = h.chosen_lt;
    initial_lt = h.initial_lt;
    bound_lt = b;
  }

  pub eval-Ends :
      (p : Instance) → Below rank p → (e : Expr) → Ends (λ g f. eval_integer_constant u p g e)
  eval-Ends p b e =
      let k = suc (rank e) in
      let total = eval_total u p rank (IsRanked-Ranked p b) k e (omega arith) in
      ends k (eval_integer_constant u p k e) total λ g f q q'.
        subst (λ x. eval_integer_constant u p x e ≡ eval_integer_constant u p k e) {y = g}
          (omega arith) (eval_more u p k (g - k) e total)
