-- ===== src/Translate/Correct.antt =====
-- Written expressions, case by case of translate_expression (src/utot-expr.cc).
use mathlib.Core.Path.{subst}
use uppaal_to_tchecker.Base.{
  ℕ, zero, suc, Text, true, none, some, List, [], ◌∷◌, ◌++◌, ◌≡◌, refl, ◌∙◌, inl, inr, Bool-cases,
}
use uppaal_to_tchecker.Base.Integers.{ℤ}
use uppaal_to_tchecker.Outcome.{
  Outcome, ok, ◌>>=◌, Ensures, ensures, Ensures-at, Ensures-ok, Ensures-out_of_fuel, Ensures-bind,
  Ensures-then, bind-ok, ensuring,
}
use uppaal_to_tchecker.Utap.{
  Symbol, Expr, Utap, constant, identifier, unary, binary, inline_if, array, sync_on, logical_not,
  unary_minus, plus, minus, mult, div, modulo, logical_and, logical_or, lt, le, eq, neq, ge, gt,
}
use uppaal_to_tchecker.Prefix.{Prefix}
use uppaal_to_tchecker.Expr.{Instance, bound}
use uppaal_to_tchecker.Arrays.{is_one_dim_array_variable}
use uppaal_to_tchecker.Translate.{
  symbol_text, flat_text, cell_text, replaced, binary_case, translate_expression,
}
use uppaal_to_tchecker.Translate.Terms.{
  Operator, Term, variable, cell, add, subtract, times, over, remains, both, below, at_most, equals,
  differs, at_least, above, operator_text, print,
}
use uppaal_to_tchecker.Translate.RoundTrip.{Readable}
use uppaal_to_tchecker.Translate.Values.{
  Store, State, place, meaning, value, kind_of, shifted, flat_name,
}
use uppaal_to_tchecker.Translate.Constants.{HoldsConstants}
use uppaal_to_tchecker.Translate.Names.{IsChecked, IsPlain, replaced-Ensures}
use uppaal_to_tchecker.Translate.Places.{Named, array-Named, element-Named, of_variable}
use uppaal_to_tchecker.Translate.Preserved.{
  Follows, follows, Follows-at, Follows-refl, following, Says, unary-Says, or-Says, applied-Says,
  choice-Says, constant-Says, cell_text-print,
}

-- The store has the values of the state: a variable that is split, or is none of an array, under
-- its name, and an element of an array under its index from 0.
pub record Represents (u : Utap) (p : Instance) (g : ℕ) (ctx : Prefix) (σ : State) (w : Store)
    : Type 0 where
  pub of_variable :
      (s : Symbol) (is : List ℤ) → w.variables (flat_name (symbol_text u ctx s) is) ≡ σ s is
  pub of_cell :
      (n : ℕ) (a : Expr) (s : Symbol) (is : List ℤ) (bounds : ℤ × ℤ) (i : ℤ)
      → place p σ n a ≡ ok (s, is)
      → is_one_dim_array_variable u p g a ≡ ok (true, bounds)
      → (shifted bounds.0 i >>= w.cells (flat_name (symbol_text u ctx s) is)) ≡ σ s (is ++ (i ∷ []))

module _ {u : Utap} {p : Instance} {g : ℕ} {ctx : Prefix} {σ : State} {w : Store}
    (h : IsChecked u p g ctx) (k : HoldsConstants u p σ) (z : Represents u p g ctx σ w) where
  element-Says : (a i : Expr) (x : Text) → Named u p ctx σ (array a i) x → Says p σ w (array a i) x
  unfolding print Readable meaning value place
  element-Says a i x (named, shown) = (variable x, refl, named, λ n. follows (on_element n))
    where
      on_element : (n : ℕ) (v : ℤ) → meaning p σ n (array a i) ≡ ok v → w.variables x ≡ ok v
      on_element zero v q = cc
      on_element (suc n) v q =
          let (t, q1, q2) = bind-ok (place p σ n a) _ v q in
          let (j, q3, q4) = bind-ok (meaning p σ n i) _ v q2 in
          let at : place p σ (suc n) (array a i) ≡ ok (t.0, t.1 ++ (j ∷ [])) = rw (q1, q3) refl in
          rw (shown (suc n) t.0 (t.1 ++ (j ∷ [])) at, z.of_variable t.0 (t.1 ++ (j ∷ []))) q4

  cell-Says :
      (a i : Expr) (bounds : ℤ × ℤ) (x y : Text)
      → is_one_dim_array_variable u p g a ≡ ok (true, bounds)
      → Named u p ctx σ a x
      → Says p σ w i y
      → Says p σ w (array a i) (cell_text x y bounds.0)
  unfolding print Readable meaning value
  cell-Says a i bounds x y one (named, shown) (t, q, r, m) =
      (cell x t bounds.0, cell_text-print x y t bounds.0 q, (named, r), λ n. follows (on_cell n))
    where
      on_cell :
          (n : ℕ) (v : ℤ) → meaning p σ n (array a i) ≡ ok v → value w (cell x t bounds.0) ≡ ok v
      on_cell zero v q = cc
      on_cell (suc n) v q =
          let (t', q1, q2) = bind-ok (place p σ n a) _ v q in
          let (j, q3, q4) = bind-ok (meaning p σ n i) _ v q2 in
          rw (Follows-at (m n) j q3, shown n t'.0 t'.1 q1)
            (z.of_cell n a t'.0 t'.1 bounds j q1 one ∙ q4)

  symbol-Says :
      (again : Expr → Outcome Text) (s : Symbol)
      → ((e : Expr) → IsPlain u p g e → Ensures (Says p σ w e) (again e))
      → Ensures (Says p σ w (identifier s)) (replaced again (bound p s) (symbol_text u ctx s))
  unfolding print Readable value meaning
  symbol-Says again s rest =
      replaced-Ensures again (bound p s) (symbol_text u ctx s)
        (λ e b. ensures λ x r.
          let (t, q, readable, m) = Ensures-at (rest e (h.of_mapped s e b)) x r in
          (t, q, readable, on_bound e t b m))
        (λ b. (variable (symbol_text u ctx s), refl, h.named s, on_free b))
    where
      on_bound :
          (e : Expr) (t : Term)
          → bound p s ≡ some e
          → ((n : ℕ) → Follows (meaning p σ n e) (value w t))
          → (n : ℕ) → Follows (meaning p σ n (identifier s)) (value w t)
      on_bound e t b m zero = search following
      on_bound e t b m (suc n) = rw b (m n)

      on_free :
          bound p s ≡ none
          → (n : ℕ) → Follows (meaning p σ n (identifier s)) (w.variables (symbol_text u ctx s))
      on_free b zero = search following
      on_free b (suc n) = rw (b, z.of_variable s []) (Follows-refl (σ s []))

  array-Says :
      (f : ℕ) (a i : Expr)
      → IsPlain u p g (array a i)
      → Ensures (Says p σ w i) (translate_expression u p g ctx f i)
      → Ensures (Says p σ w (array a i)) (translate_expression u p g ctx (suc f) (array a i))
  unfolding translate_expression
  array-Says f a i (computed, plain, l, split_at) rest = Ensures-bind _ _ λ r q1.
      let (array_type, size) = Ensures-at (of_variable u p g a) r q1 in
      let base = array-Named h k f a computed plain array_type in
      elim (Bool-cases r.0) [
        | inl one ↦ rw one (
            Ensures-then _ _ base λ x named. Ensures-then _ _ rest λ y says.
              Ensures-ok (cell_text x y r.1.0) (
                cell-Says a i r.1 x y
                  (subst (λ b. is_one_dim_array_variable u p g a ≡ ok (b, r.1)) one q1) named says))
        | inr split ↦
            let (constants, from_0) =
              split_at r.1
                (subst (λ b. is_one_dim_array_variable u p g a ≡ ok (b, r.1)) split q1) in
            rw split (
              Ensures-bind _ _ λ index q2. Ensures-bind _ _ λ y q3. Ensures-then _ _ base λ x named.
                Ensures-ok (flat_text x index) (
                  element-Says a i (flat_text x index)
                    (element-Named h k a i x index r.1.0 r.1.1 y constants named q2 from_0 q3)))
      ]

  binary-Says :
      (again : Expr → Outcome Text) (o : Operator) (a b : Expr)
      → Ensures (Says p σ w a) (again a)
      → Ensures (Says p σ w b) (again b)
      → Ensures
          (Says p σ w (binary (kind_of o) a b))
          (binary_case again (some (operator_text o)) a b)
  binary-Says again o a b on_left on_right = Ensures-then _ _ on_left λ x says.
      Ensures-then _ _ on_right λ y says'. Ensures-ok _ (applied-Says p σ w o a b x y says says')

  pub translate_expression-Says :
      (f : ℕ) (e : Expr)
      → IsPlain u p g e
      → Ensures (Says p σ w e) (translate_expression u p g ctx f e)
  unfolding translate_expression
  translate_expression-Says zero e l = Ensures-out_of_fuel
  translate_expression-Says (suc f) (unary logical_not a) l =
      Ensures-then _ _ (translate_expression-Says f a l)
        λ x says. Ensures-ok _ (unary-Says p σ w a x says).0
  translate_expression-Says (suc f) (unary unary_minus a) l =
      Ensures-then _ _ (translate_expression-Says f a l)
        λ x says. Ensures-ok _ (unary-Says p σ w a x says).1
  translate_expression-Says (suc f) (binary logical_or a b) (l, l') =
      let rest = translate_expression-Says f in
      Ensures-then _ _ (rest a l) λ x says.
        Ensures-then _ _ (rest b l') λ y says'. Ensures-ok _ (or-Says p σ w a b x y says says')
  translate_expression-Says (suc f) (inline_if c a b) (l, l', l'') =
      let rest = translate_expression-Says f in
      Ensures-then _ _ (rest c l) λ x says. Ensures-then _ _ (rest a l') λ y says'.
        Ensures-then _ _ (rest b l'')
          λ z' says''. Ensures-ok _ (choice-Says p σ w c a b x y z' says says' says'')
  translate_expression-Says (suc f) (identifier s) l =
      symbol-Says (translate_expression u p g ctx f) s (translate_expression-Says f)
  translate_expression-Says (suc f) (constant n) l = Ensures-ok _ (constant-Says p σ w n)
  translate_expression-Says (suc f) (array a i) l =
      array-Says f a i l (translate_expression-Says f i l.2)
  translate_expression-Says (suc f) (sync_on s e) l = absurd l
  translate_expression-Says (suc f) (binary plus a b) (l, l') =
      binary-Says (translate_expression u p g ctx f) add a b (translate_expression-Says f a l)
        (translate_expression-Says f b l')
  translate_expression-Says (suc f) (binary minus a b) (l, l') =
      binary-Says (translate_expression u p g ctx f) subtract a b (translate_expression-Says f a l)
        (translate_expression-Says f b l')
  translate_expression-Says (suc f) (binary mult a b) (l, l') =
      binary-Says (translate_expression u p g ctx f) times a b (translate_expression-Says f a l)
        (translate_expression-Says f b l')
  translate_expression-Says (suc f) (binary div a b) (l, l') =
      binary-Says (translate_expression u p g ctx f) over a b (translate_expression-Says f a l)
        (translate_expression-Says f b l')
  translate_expression-Says (suc f) (binary modulo a b) (l, l') =
      binary-Says (translate_expression u p g ctx f) remains a b (translate_expression-Says f a l)
        (translate_expression-Says f b l')
  translate_expression-Says (suc f) (binary logical_and a b) (l, l') =
      binary-Says (translate_expression u p g ctx f) both a b (translate_expression-Says f a l)
        (translate_expression-Says f b l')
  translate_expression-Says (suc f) (binary lt a b) (l, l') =
      binary-Says (translate_expression u p g ctx f) below a b (translate_expression-Says f a l)
        (translate_expression-Says f b l')
  translate_expression-Says (suc f) (binary le a b) (l, l') =
      binary-Says (translate_expression u p g ctx f) at_most a b (translate_expression-Says f a l)
        (translate_expression-Says f b l')
  translate_expression-Says (suc f) (binary eq a b) (l, l') =
      binary-Says (translate_expression u p g ctx f) equals a b (translate_expression-Says f a l)
        (translate_expression-Says f b l')
  translate_expression-Says (suc f) (binary neq a b) (l, l') =
      binary-Says (translate_expression u p g ctx f) differs a b (translate_expression-Says f a l)
        (translate_expression-Says f b l')
  translate_expression-Says (suc f) (binary ge a b) (l, l') =
      binary-Says (translate_expression u p g ctx f) at_least a b (translate_expression-Says f a l)
        (translate_expression-Says f b l')
  translate_expression-Says (suc f) (binary gt a b) (l, l') =
      binary-Says (translate_expression u p g ctx f) above a b (translate_expression-Says f a l)
        (translate_expression-Says f b l')
  translate_expression-Says (suc f) _ l = search ensuring
