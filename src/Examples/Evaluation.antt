-- ===== src/Examples/Evaluation.antt =====
-- Constants: x is 5, and a[0] is 10 (src/utot-expr.cc).
use uppaal_to_tchecker.Base.{
  ℕ, zero, suc, ◌+◌, ◌<◌, true, false, Option, none, some, [], ◌∷◌, ◌==◌, if◌then◌else◌, ◌≡◌, refl,
  arith, Bool-cases, inl, inr,
}
use uppaal_to_tchecker.Base.Integers.{ℤ, pos, negsuc}
use uppaal_to_tchecker.Outcome.{ok, ◌>>=◌, require}
use uppaal_to_tchecker.Utap.{
  Symbol, Expr, Exprs, Utap, base, range, empty, constant, identifier, unary, binary, inline_if,
  array, list, sync_on, other, plus, cons, nil, int, is_empty, child, children, nth,
}
use uppaal_to_tchecker.Expr.{Mapping, at_index, or_fault, eval_integer_constant}

-- The size of an expression, with that of the constants that it names.
unfoldable mutual
  pub rank : Expr → ℕ
  rank (unary k a) = 2 + rank a
  rank (binary k a b) = 3 + rank a + rank b
  rank (inline_if a b c) = 4 + rank a + rank b + rank c
  rank (array a b) = 3 + rank a + rank b
  rank (list es) = suc (ranks es)
  rank (sync_on d a) = 2 + rank a
  rank (other k es) = suc (ranks es)
  rank (identifier s) = 20
  rank (constant n) = 1
  rank empty = 1

  ranks : Exprs → ℕ
  ranks nil = 0
  ranks (cons e es) = suc (rank e + ranks es)

nth-rank : (es : Exprs) (i : ℕ) (e : Expr) → nth es i ≡ some e → rank e < ranks es
unfolding rank
nth-rank nil i e h = cc
nth-rank (cons a es) zero e h = ground arith
nth-rank (cons a es) (suc i) e h = ground (arith, nth-rank es i e h)

children-rank : (e : Expr) → ranks (children e) < rank e
unfolding rank
children-rank e = by_kind e
  where
    by_kind : (e : Expr) → ranks (children e) < rank e
    by_kind (unary k a) = omega arith
    by_kind (binary k a b) = omega arith
    by_kind (inline_if a b c) = omega arith
    by_kind (array a b) = omega arith
    by_kind (list es) = omega arith
    by_kind (sync_on d a) = omega arith
    by_kind (other k es) = omega arith
    by_kind _ = omega arith

pub child-rank : (e c : Expr) (n : ℕ) → or_fault (child e n) ≡ ok c → rank c < rank e
child-rank e c n h =
    ground (arith, children-rank e, nth-rank (children e) n c, some_of (child e n) c h)
  where
    some_of : (o : Option Expr) (c : Expr) → or_fault o ≡ ok c → o ≡ some c
    some_of none c h = cc
    some_of (some d) c h = cc

pub at_index-rank : (e c : Expr) (n : ℤ) → at_index e n ≡ ok c → rank c < rank e
unfolding at_index
at_index-rank e c (pos n) h = child-rank e c n h
at_index-rank e c (negsuc n) h = cc

abbrev initial : Symbol → Expr
initial s =
    if s == 0
    then list (cons (constant (pos 10)) (cons (constant (pos 20)) nil))
    else if s == 1
    then constant (pos 5)
    else empty

abbrev library : Utap
library = record {
  type_of = λ e. base int;
  get_symbol = λ e. 0;
  symbol_type = λ s. base int;
  symbol_name = λ s. [];
  has_parent = λ s. false;
  variable = λ s. some (initial s);
  equal = λ a b. false;
  is_integer = λ t. true;
  is_boolean = λ t. false;
  is_scalar = λ t. false;
  is_constant = λ t. true;
  is_range = λ t. true;
  is_array = λ t. true;
  is_clock = λ t. false;
  is = λ t k. false;
  get_array_size = λ t. range (base int) (constant (pos 0)) (constant (pos 1));
  strip_array = λ t. t;
  to_string = λ t. [];
  show = λ e. [];
  get_range = λ t. (constant (pos 0), constant (pos 1));
}

-- The parameter 2 is 7.
abbrev parameters : Mapping
parameters = (2, constant (pos 7)) ∷ []

pub required :
    (x e : Expr) → (require (if is_empty x then false else true) >>= λ _. ok x) ≡ ok e → x ≡ e
required x e h = elim (Bool-cases (is_empty x)) [
  | inl none_there ↦ absurd (ground arith)
  | inr there ↦ ground arith
]

-- x + a[0]
abbrev sum : Expr
sum = binary plus (identifier 1) (array (identifier 0) (constant (pos 0)))

sum_value : eval_integer_constant library (some parameters) 10 sum ≡ ok (pos 15)
unfolding eval_integer_constant
sum_value = refl
