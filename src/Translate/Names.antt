-- ===== src/Translate/Names.antt =====
-- The names in written expressions, variables and split elements (src/utot-expr.cc).
use uppaal_to_tchecker.Base.{
  ℕ, Text, codes, same, Bool, true, false, Option, none, some, [], ◌∷◌, ◌++◌, ◌&&◌, ◌≡◌, refl,
  arith, All, All-append,
}
use uppaal_to_tchecker.Base.Integers.{ℤ, pos, negsuc, decimal, leb_ℤ, is_digit, decimal-cons}
use uppaal_to_tchecker.Outcome.{Outcome, ok, assert, Ensures, Ensures-ok, require-true}
use uppaal_to_tchecker.Utap.{
  Symbol, Expr, Utap, identifier, unary, binary, inline_if, constant, array, sync_on,
}
use uppaal_to_tchecker.Prefix.{Prefix}
use uppaal_to_tchecker.Expr.{Instance, bound}
use uppaal_to_tchecker.Arrays.{is_one_dim_array_variable}
use uppaal_to_tchecker.Translate.{symbol_text, flat_text, within, replaced}
use uppaal_to_tchecker.Translate.Constants.{ReadsConstants}
use uppaal_to_tchecker.Translate.Reader.{is_follow}
use uppaal_to_tchecker.Translate.Parts.{IsName}

not_if : (s t : Text) → same (s ++ b'_' ∷ t) (codes "if") ≡ false
unfolding same
not_if [] t = refl
not_if (a ∷ []) t = ground arith
not_if (a ∷ b ∷ []) t = ground arith
not_if (a ∷ b ∷ c ∷ s) t = ground arith

digit-follow : (s : Text) → All (λ c. is_digit c ≡ true) s → All (λ c. is_follow c ≡ true) s
digit-follow [] h = tt
digit-follow (c ∷ s) h = (ground arith, digit-follow s h.1)

-- The name of an element whose index is not negative.
flat_text-IsName : (name : Text) (n : ℕ) → IsName name → IsName (flat_text name (pos n))
flat_text-IsName [] n h = absurd h
flat_text-IsName (c ∷ s) n h =
    let (d, t, e, k) = decimal-cons n in
    (
      h.0,
      All-append (λ c. is_follow c ≡ true) s (b'_' ∷ decimal (pos n)) h.1
          (refl, rw e (digit-follow (d ∷ t) k)),
      not_if (c ∷ s) (decimal (pos n)),
    )

-- An expression that is worth a number of its own, and is no array.
abbrev pub is_computed : Expr → Bool
is_computed (unary k a) = true
is_computed (binary k a b) = true
is_computed (inline_if c a b) = true
is_computed (constant n) = true
is_computed (sync_on s e) = true
is_computed _ = false

-- The arrays that an expression reads are named, and each that is split has no index below 0 and is
-- read at an index of constants. The expression is no label.
abbrev pub IsPlain : Utap → Instance → ℕ → Expr → Type 0
IsPlain u p g (unary k a) = IsPlain u p g a
IsPlain u p g (binary k a b) = IsPlain u p g a × IsPlain u p g b
IsPlain u p g (inline_if c a b) = IsPlain u p g c × IsPlain u p g a × IsPlain u p g b
IsPlain u p g (array a i) =
    (is_computed a ≡ false)
    × IsPlain u p g a
    × IsPlain u p g i
    × ((bounds : ℤ × ℤ)
        → is_one_dim_array_variable u p g a ≡ ok (false, bounds)
        → ReadsConstants u i × (leb_ℤ (pos 0) bounds.0 ≡ true))
IsPlain u p g (sync_on s e) = ⊥
IsPlain u p g _ = Unit {0}

-- What the checks of the library ensure: names, and what may have the type of an array. What a
-- parameter stands for is plain.
pub record IsChecked (u : Utap) (p : Instance) (g : ℕ) (ctx : Prefix) : Type 0 where
  pub named : (s : Symbol) → IsName (symbol_text u ctx s)
  pub of_mapped : (s : Symbol) (e : Expr) → bound p s ≡ some e → IsPlain u p g e
  pub of_bound :
      (s : Symbol) (e : Expr)
      → bound p s ≡ some e
      → u.is_array (u.type_of (identifier s)) ≡ true
      → (u.is_array (u.type_of e) ≡ true) × (is_computed e ≡ false)
  pub of_element :
      (a i : Expr) (bounds : ℤ × ℤ)
      → is_one_dim_array_variable u p g a ≡ ok (true, bounds)
      → u.is_array (u.type_of (array a i)) ≡ false

pub assert-true : (b : Bool) (x : Unit {0}) → assert b ≡ ok x → b ≡ true
assert-true true x h = refl
assert-true false x h = cc

pub within-IsName :
    (name : Text) (low high index : ℤ) (x : Unit {0})
    → leb_ℤ (pos 0) low ≡ true
    → within (low, high) index ≡ ok x
    → IsName name
    → IsName (flat_text name index)
within-IsName name low high (pos n) x h k q = flat_text-IsName name n q
within-IsName name low high (negsuc n) x h k q =
    absurd
      (let r = require-true (leb_ℤ low (negsuc n) && leb_ℤ (negsuc n) high) x k in ground arith)

pub replaced-Ensures :
    {P : Text → Type 0} (again : Expr → Outcome Text) (o : Option Expr) (name : Text)
    → ((e : Expr) → o ≡ some e → Ensures P (again e))
    → (o ≡ none → P name)
    → Ensures P (replaced again o name)
replaced-Ensures again (some e) name h k = h e refl
replaced-Ensures again none name h k = Ensures-ok name (k refl)
