-- ===== src/Translate/Places.antt =====
-- The names that arrays are written by (src/utot-expr.cc), and the sizes that is_one_dim_array_type
-- (src/utot-decl.cc) answers.
use mathlib.Core.Path.{subst}
use uppaal_to_tchecker.Base.{
  Bool-cases, ℕ, zero, suc, Text, Bool, true, false, none, some, List, [], ◌∷◌, ◌++◌, ◌≡◌, inl, inr,
  refl, ap, if◌then◌else◌,
}
use uppaal_to_tchecker.Base.Integers.{ℤ, pos, leb_ℤ}
use uppaal_to_tchecker.Outcome.{
  Outcome, ok, Ensures, ensures, Ensures-at, Ensures-ok, Ensures-out_of_fuel, Ensures-bind,
  Ensures-then, bind-ok, ensuring, ok-injective,
}
use uppaal_to_tchecker.Utap.{
  Symbol, Expr, Ty, Utap, identifier, unary, binary, inline_if, constant, array, sync_on,
}
use uppaal_to_tchecker.Prefix.{Prefix}
use uppaal_to_tchecker.Expr.{Instance, bound, eval_integer_constant, compute_range_bounds}
use uppaal_to_tchecker.Arrays.{is_one_dim_array_type, is_one_dim_array_variable}
use uppaal_to_tchecker.Translate.{symbol_text, flat_text, within, replaced, translate_expression}
use uppaal_to_tchecker.Translate.Parts.{IsName}
use uppaal_to_tchecker.Translate.Values.{State, place, meaning, flat_name, flat_name-append}
use uppaal_to_tchecker.Translate.Constants.{Agree-at, HoldsConstants, ReadsConstants, eval-meaning}
use uppaal_to_tchecker.Translate.Names.{
  IsChecked, IsPlain, is_computed, assert-true, within-IsName, replaced-Ensures,
}

-- The size of an array that is_one_dim_array_type or is_one_dim_array_variable was asked about.
abbrev pub IsSize : Utap → Instance → ℕ → Ty → ℤ × ℤ → Type 0
IsSize u p g t bounds =
    (u.is_array t ≡ true) × (compute_range_bounds u p g (u.get_array_size t) ≡ ok bounds)

picked {ℓ} : {A : Type 0} (P : A → Type ℓ) (b : Bool) (x y : A) → P x → P y → P (if b then x else y)
picked P true x y h k = h
picked P false x y h k = k

of_type :
    (u : Utap) (p : Instance) (g : ℕ) (t : Ty)
    → Ensures (λ r. IsSize u p g t r.1) (is_one_dim_array_type u p g t)
unfolding is_one_dim_array_type
of_type u p g t = Ensures-bind _ _ λ x q1. Ensures-bind _ _ λ bounds q2.
    let h : IsSize u p g t bounds = (assert-true (u.is_array t) x q1, q2) in
    Ensures-ok _ (picked (λ (r : Bool × (ℤ × ℤ) × Ty). IsSize u p g t r.1) _ _ _ h h)

pub of_variable :
    (u : Utap) (p : Instance) (g : ℕ) (a : Expr)
    → Ensures (λ r. IsSize u p g (u.type_of a) r.1) (is_one_dim_array_variable u p g a)
unfolding is_one_dim_array_variable
of_variable u p g a =
    Ensures-then _ _ (of_type u p g (u.type_of a)) λ r h. search (ensuring, h) depth 8

place_of_mapped :
    (p : Instance) (σ : State) (n : ℕ) (s : Symbol) (e : Expr) (r : Symbol × List ℤ)
    → bound p s ≡ some e
    → place p σ n (identifier s) ≡ ok r
    → (m : ℕ) × (place p σ m e ≡ ok r)
unfolding place
place_of_mapped p σ zero s e r b q = cc
place_of_mapped p σ (suc n) s e r b q = (n, rw b at q)

place_of_free :
    (p : Instance) (σ : State) (n : ℕ) (s : Symbol) (r : Symbol × List ℤ)
    → bound p s ≡ none
    → place p σ n (identifier s) ≡ ok r
    → (s, []) ≡ r
unfolding place
place_of_free p σ zero s r b q = cc
place_of_free p σ (suc n) s r b q = ok-injective (s, []) r (rw b at q)

pub place_of_array :
    (p : Instance) (σ : State) (n : ℕ) (a i : Expr) (s : Symbol) (is : List ℤ)
    → place p σ n (array a i) ≡ ok (s, is)
    → (m : ℕ) × (js : List ℤ) × (j : ℤ) × (place p σ m a ≡ ok (s, js))
      × (meaning p σ m i ≡ ok j)
      × ((js ++ (j ∷ [])) ≡ is)
unfolding place
place_of_array p σ zero a i s is q = cc
place_of_array p σ (suc n) a i s is q =
    let (t, q1, q2) = bind-ok (place p σ n a) _ (s, is) q in
    let (j, q3, q4) = bind-ok (meaning p σ n i) _ (s, is) q2 in
    let same : (t.0, t.1 ++ (j ∷ [])) ≡ (s, is) = ok-injective _ _ q4 in
    (
      n,
      t.1,
      j,
      subst (λ x. place p σ n a ≡ ok (x, t.1)) (ap (λ r. r.0) same) q1,
      q3,
      ap (λ r. r.1) same,
    )

-- The name that an array is written by, and what it stands for.
abbrev pub Named : Utap → Instance → Prefix → State → Expr → Text → Type 0
Named u p ctx σ e x =
    IsName x
    × ((n : ℕ) (s : Symbol) (is : List ℤ)
        → place p σ n e ≡ ok (s, is)
        → x ≡ flat_name (symbol_text u ctx s) is)

module _ {u : Utap} {p : Instance} {g : ℕ} {ctx : Prefix} {σ : State} (h : IsChecked u p g ctx)
    (k : HoldsConstants u p σ) where
  pub symbol-Named :
      (again : Expr → Outcome Text) (s : Symbol)
      → ((e : Expr) → bound p s ≡ some e → Ensures (Named u p ctx σ e) (again e))
      → Ensures (Named u p ctx σ (identifier s)) (replaced again (bound p s) (symbol_text u ctx s))
  symbol-Named again s rest =
      replaced-Ensures again (bound p s) (symbol_text u ctx s)
        (λ e b. ensures λ x r.
          let (named, shown) = Ensures-at (rest e b) x r in
          (
            named,
            λ n t is q. let (m, q') = place_of_mapped p σ n s e (t, is) b q in shown m t is q',
          ))
        (λ b. (
          h.named s,
          λ n t is q.
              ap (λ r. flat_name (symbol_text u ctx r.0) r.1) (place_of_free p σ n s (t, is) b q),
        ))

  pub element-Named :
      (a i : Expr) (x : Text) (index low high : ℤ) (y : Unit {0})
      → ReadsConstants u i
      → Named u p ctx σ a x
      → eval_integer_constant u p g i ≡ ok index
      → leb_ℤ (pos 0) low ≡ true
      → within (low, high) index ≡ ok y
      → Named u p ctx σ (array a i) (flat_text x index)
  element-Named a i x index low high y c (named, shown) e l w = (
    within-IsName x low high index y l w named,
    λ n s is q.
        let (m, js, j, q1, q2, q3) = place_of_array p σ n a i s is q in
        let same_index : index ≡ j = Agree-at (eval-meaning u p σ k g m i c) index j e q2 in
        rw (← q3, flat_name-append (symbol_text u ctx s) js j, ← shown m s js q1, same_index) refl,
  )

  pub array-Named :
      (f : ℕ) (e : Expr)
      → is_computed e ≡ false
      → IsPlain u p g e
      → u.is_array (u.type_of e) ≡ true
      → Ensures (Named u p ctx σ e) (translate_expression u p g ctx f e)
  unfolding translate_expression
  array-Named zero e c l q = Ensures-out_of_fuel
  array-Named (suc f) (identifier s) c l q =
      symbol-Named (translate_expression u p g ctx f) s λ d b.
        let (is_array, named) = h.of_bound s d b q in
        array-Named f d named (h.of_mapped s d b) is_array
  array-Named (suc f) (array a i) c (named, plain, l, split_at) q = Ensures-bind _ _ λ r q1.
      let (array_type, size) = Ensures-at (of_variable u p g a) r q1 in
      elim (Bool-cases r.0) [
        | inl one ↦ absurd (
            not_one a i r.1 q (subst (λ b. is_one_dim_array_variable u p g a ≡ ok (b, r.1)) one q1))
        | inr split ↦
            let (constants, from_0) =
              split_at r.1
                (subst (λ b. is_one_dim_array_variable u p g a ≡ ok (b, r.1)) split q1) in
            rw split (
              Ensures-bind _ _ λ index q2. Ensures-bind _ _ λ y q3.
                Ensures-then _ _ (array-Named f a named plain array_type) λ x shown.
                  Ensures-ok _
                    (element-Named a i x index r.1.0 r.1.1 y constants shown q2 from_0 q3))
      ]
    where
      not_one :
          (a i : Expr) (bounds : ℤ × ℤ)
          → u.is_array (u.type_of (array a i)) ≡ true
          → is_one_dim_array_variable u p g a ≡ ok (true, bounds)
          → ⊥
      not_one a i bounds q e = cc (h.of_element a i bounds e)
  array-Named (suc f) (unary k a) c l q = cc
  array-Named (suc f) (binary k a b) c l q = cc
  array-Named (suc f) (inline_if t a b) c l q = cc
  array-Named (suc f) (constant n) c l q = cc
  array-Named (suc f) (sync_on d e) c l q = cc
  array-Named (suc f) _ c l q = search ensuring
