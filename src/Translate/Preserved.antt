-- ===== src/Translate/Preserved.antt =====
-- The value of a written expression, operator by operator of translate_expression
-- (src/utot-expr.cc).
use uppaal_to_tchecker.Base.{
  ℕ, zero, suc, Text, codes, Bool, true, false, ◌++◌, ◌≡◌, refl, inl, inr, Bool-cases,
  if◌then◌else◌, append_assoc,
}
use uppaal_to_tchecker.Base.Integers.{ℤ, pos, negsuc, decimal}
use uppaal_to_tchecker.Outcome.{Outcome, ok, thrown, fault, out_of_fuel, ◌>>=◌, bind-ok}
use uppaal_to_tchecker.Utap.{
  Expr, constant, unary, binary, inline_if, logical_not, unary_minus, logical_or,
}
use uppaal_to_tchecker.Expr.{Instance, is_zero, truth}
use uppaal_to_tchecker.Translate.{cell_text, infix_text, inline_if_text, or_text}
use uppaal_to_tchecker.Translate.Terms.{
  Operator, Term, numeral, cell, negation, opposite, group, single, applied, choice, both,
  operator_text, print,
}
use uppaal_to_tchecker.Translate.RoundTrip.{Readable}
use uppaal_to_tchecker.Translate.Values.{Store, State, meaning, value, operate, kind_of, as_truth}

-- The second run returns what the first returns, where that returns.
pub data Follows (m r : Outcome ℤ) : Type 0 where
  follows : ((v : ℤ) → m ≡ ok v → r ≡ ok v) → Follows m r

pub Follows-at : {m r : Outcome ℤ} → Follows m r → (v : ℤ) → m ≡ ok v → r ≡ ok v
Follows-at (follows h) = h

pub Follows-refl : (m : Outcome ℤ) → Follows m m
Follows-refl m = follows (λ v e. e)

pub Follows-thrown : (r : Outcome ℤ) → Follows thrown r
Follows-thrown r = follows (λ v e. cc)

pub Follows-starved : (r : Outcome ℤ) → Follows out_of_fuel r
Follows-starved r = follows (λ v e. cc)

pub Follows-bind :
    (m r : Outcome ℤ) (f g : ℤ → Outcome ℤ)
    → Follows m r
    → ((a : ℤ) → Follows (f a) (g a))
    → Follows (m >>= f) (r >>= g)
Follows-bind m r f g h k =
    follows
      λ v e. let (a, q1, q2) = bind-ok m f v e in rw (Follows-at h a q1) (Follows-at (k a) v q2)

pub Follows-if :
    (b : Bool) (m m' r r' : Outcome ℤ)
    → Follows m r
    → Follows m' r'
    → Follows (if b then m else m') (if b then r else r')
Follows-if true m m' r r' h k = h
Follows-if false m m' r r' h k = k

pub ruleset following = (Follows-refl, Follows-thrown, Follows-starved, Follows-bind, Follows-if)

-- The disjunction as `!(!a && !b)`.
or_value : Outcome ℤ → Outcome ℤ → Outcome ℤ
or_value m r = do
  z ← operate both (do x ← m; ok (truth (is_zero x))) (do y ← r; ok (truth (is_zero y)))
  ok (truth (is_zero z))

or_value_lem :
    (m r : Outcome ℤ) → (do x ← m; if is_zero x then as_truth r else ok (pos 1)) ≡ or_value m r
unfolding or_value
or_value_lem (ok x) r = elim (Bool-cases (is_zero x)) [ inl q ↦ rw q (right r) | inr q ↦ rw q refl ]
  where
    right : (r : Outcome ℤ) → as_truth r ≡ or_value (ok (pos 0)) r
    right (ok y) = elim (Bool-cases (is_zero y)) [ inl q ↦ rw q refl | inr q ↦ rw q refl ]
    right thrown = refl
    right fault = refl
    right out_of_fuel = refl
or_value_lem thrown r = refl
or_value_lem fault r = refl
or_value_lem out_of_fuel r = refl

-- A text of an expression: of a term that is worth what the expression is worth.
abbrev pub Says : Instance → State → Store → Expr → Text → Type 0
Says p σ w e text =
    (t : Term) × (text ≡ print t) × Readable t × ((n : ℕ) → Follows (meaning p σ n e) (value w t))

module _ (p : Instance) (σ : State) (w : Store) where
  pub unary-Says :
      (a : Expr) (x : Text)
      → Says p σ w a x
      → Says p σ w (unary logical_not a) (codes "!(" ++ (x ++ codes ")"))
        × Says p σ w (unary unary_minus a) (codes "-(" ++ (x ++ codes ")"))
  unfolding print Readable meaning value
  unary-Says a x (t, q, r, m) =
      ((negation (single t), rw q refl, r, on_not), (opposite (single t), rw q refl, r, on_minus))
    where
      on_not :
          (n : ℕ) → Follows (meaning p σ n (unary logical_not a)) (value w (negation (single t)))
      on_not zero = search following
      on_not (suc n) = let h = m n in search (following, h)

      on_minus :
          (n : ℕ) → Follows (meaning p σ n (unary unary_minus a)) (value w (opposite (single t)))
      on_minus zero = search following
      on_minus (suc n) = let h = m n in search (following, h)

  pub or-Says :
      (a b : Expr) (x y : Text)
      → Says p σ w a x
      → Says p σ w b y
      → Says p σ w (binary logical_or a b) (or_text x y)
  unfolding print Readable meaning value or_value
  or-Says a b x y (t, q, r, m) (t', q', r', m') = (
    negation (applied both (negation (single t)) (negation (single t'))),
    simp (append_assoc, q, q'),
    (r, r'),
    on_or,
  )
    where
      on_or :
          (n : ℕ)
          → Follows (meaning p σ n (binary logical_or a b)) (or_value (value w t) (value w t'))
      on_or zero = search following
      on_or (suc n) =
          let h = m n in
          let h' = m' n in rw (← or_value_lem (value w t) (value w t')) (search (following, h, h'))

  pub applied-Says :
      (k : Operator) (a b : Expr) (x y : Text)
      → Says p σ w a x
      → Says p σ w b y
      → Says p σ w (binary (kind_of k) a b) (infix_text (operator_text k) x y)
  unfolding print Readable meaning value
  applied-Says k a b x y (t, q, r, m) (t', q', r', m') =
      (group (applied k t t'), simp (append_assoc, q, q'), (r, r'), on_kind k)
    where
      on_kind :
          (k : Operator) (n : ℕ)
          → Follows (meaning p σ n (binary (kind_of k) a b)) (operate k (value w t) (value w t'))
      on_kind k zero = search following
      on_kind both (suc n) = let h = m n in let h' = m' n in search (following, h, h')
      on_kind _ (suc n) = let h = m n in let h' = m' n in search (following, h, h')

  pub choice-Says :
      (c a b : Expr) (x y z : Text)
      → Says p σ w c x
      → Says p σ w a y
      → Says p σ w b z
      → Says p σ w (inline_if c a b) (inline_if_text x y z)
  unfolding print Readable meaning value
  choice-Says c a b x y z (t, q, r, m) (t', q', r', m') (t'', q'', r'', m'') =
      (group (choice t t' t''), simp (append_assoc, q, q', q''), (r, r', r''), on_choice)
    where
      on_choice :
          (n : ℕ)
          → Follows
              (meaning p σ n (inline_if c a b))
              (do x ← value w t; if is_zero x then value w t'' else value w t')
      on_choice zero = search following
      on_choice (suc n) =
          let h = m n in let h' = m' n in let h'' = m'' n in search (following, h, h', h'')

  pub constant-Says : (k : ℤ) → Says p σ w (constant k) (decimal k)
  unfolding print Readable meaning value
  constant-Says k = (numeral k, refl, tt, on_constant)
    where
      on_constant : (n : ℕ) → Follows (meaning p σ n (constant k)) (ok k)
      on_constant zero = search following
      on_constant (suc n) = search following

pub cell_text-print :
    (name x : Text) (i : Term) (low : ℤ)
    → x ≡ print i
    → cell_text name x low ≡ print (cell name i low)
unfolding print
cell_text-print name x i (pos zero) q = rw q refl
cell_text-print name x i (pos (suc n)) q = rw q refl
cell_text-print name x i (negsuc n) q = rw q refl
