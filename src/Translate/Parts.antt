-- ===== src/Translate/Parts.antt =====
-- Reading a written expression (src/utot-expr.cc): what the readers do on each part of a text.
use uppaal_to_tchecker.Base.{
  ℕ, zero, suc, Text, codes, same, Bool, true, false, some, [], ◌∷◌, ◌++◌, ◌==◌, ◌≡◌, refl, sym,
  arith, All, append_assoc,
}
use uppaal_to_tchecker.Base.Integers.{
  ℤ, pos, negsuc, decimal, read, read-decimal, is_digit, decimal-cons, decimal-minus,
}
use uppaal_to_tchecker.Translate.Terms.{
  Operator, Term, Body, numeral, cell, applied, choice, add, subtract, times, over, remains, both,
  below, at_most, equals, differs, at_least, above, operator_text, shift_text,
}
use uppaal_to_tchecker.Translate.Reader.{
  is_start, is_follow, span, strip, read_integer, bracketed, subscript, indexed, term_step, operand,
  body_step, Reader,
}
use mathlib.Core.Path.{subst}

-- The test fails on the first byte, if there is one.
abbrev pub Stops : (ℕ → Bool) → Text → Type 0
Stops test [] = Unit
Stops test (c ∷ s) = test c ≡ false

pub span-append :
    (test : ℕ → Bool) (s r : Text)
    → All (λ c. test c ≡ true) s
    → Stops test r
    → span test (s ++ r) ≡ (s, r)
unfolding span
span-append test [] [] h k = refl
span-append test [] (c ∷ r) h k = rw k refl
span-append test (c ∷ s) r h k = rw (h.0, span-append test s r h.1 k) refl

pub strip-append : (p r : Text) → strip p (p ++ r) ≡ some r
unfolding strip
strip-append [] r = refl
strip-append (c ∷ p) r = ground (arith, strip-append p r)

minus_ne : (c : ℕ) → is_digit c ≡ true → (c == b'-') ≡ false
minus_ne c h = ground arith

pub read_integer-decimal :
    (n : ℤ) (r : Text) → Stops is_digit r → read_integer (decimal n ++ r) ≡ some (n, r)
unfolding read_integer
read_integer-decimal (pos n) r h =
    let (c, s, e, d) = decimal-cons n in
    let q : read (c ∷ s) ≡ pos n = rw (← e) (read-decimal (pos n)) in
    rw (e, span-append is_digit (c ∷ s) r d h, minus_ne c d.0) (rw q refl)
read_integer-decimal (negsuc n) r h =
    let (c, s, e, d) = decimal-minus n in
    let q : read (b'-' ∷ c ∷ s) ≡ negsuc n = rw (← e) (read-decimal (negsuc n)) in
    rw (e, span-append is_digit (c ∷ s) r d h) (rw q refl)

-- An identifier that is not the keyword `if`.
abbrev pub IsName : Text → Type 0
IsName [] = ⊥
IsName (c ∷ s) =
    (is_start c ≡ true) × All (λ d. is_follow d ≡ true) s × (same (c ∷ s) (codes "if") ≡ false)

start_first :
    (c : ℕ)
    → is_start c ≡ true
    → (is_follow c ≡ true)
      × ((c == b'(') ≡ false)
      × ((c == b'!') ≡ false)
      × ((c == b'-') ≡ false)
      × (is_digit c ≡ false)
start_first c h = (ground arith, ground arith, ground arith, ground arith, ground arith)

digit_first :
    (c : ℕ)
    → is_digit c ≡ true
    → ((c == b'(') ≡ false) × ((c == b'!') ≡ false) × ((c == b'-') ≡ false)
digit_first c h = (ground arith, ground arith, ground arith)

pub IsName-follow : (name : Text) → IsName name → All (λ c. is_follow c ≡ true) name
IsName-follow [] h = absurd h
IsName-follow (c ∷ s) h = ((start_first c h.0).0, h.1)

pub IsName-ne : (name : Text) → IsName name → same name (codes "if") ≡ false
IsName-ne [] h = absurd h
IsName-ne (c ∷ s) h = h.2

pub term_step-name :
    (term : Reader Term) (body : Reader Body) (name r : Text)
    → IsName name
    → Stops is_follow r
    → term_step term body (name ++ r) ≡ indexed term name r
unfolding term_step
term_step-name term body [] r h k = absurd h
term_step-name term body (c ∷ s) r h k =
    let (f, p, x, m, d) = start_first c h.0 in
    rw (p, x, m, d, h.0, span-append is_follow s r h.1 k) refl

term_step-digit :
    (term : Reader Term) (body : Reader Body) (c : ℕ) (s : Text) (n : ℤ) (r : Text)
    → is_digit c ≡ true
    → read_integer (c ∷ s) ≡ some (n, r)
    → term_step term body (c ∷ s) ≡ some (numeral n, r)
unfolding term_step
term_step-digit term body c s n r h q =
    let (p, x, m) = digit_first c h in rw (p, x, m, h) (rw q refl)

term_step-minus :
    (term : Reader Term) (body : Reader Body) (c : ℕ) (s : Text) (n : ℤ) (r : Text)
    → is_digit c ≡ true
    → read_integer (b'-' ∷ c ∷ s) ≡ some (n, r)
    → term_step term body (b'-' ∷ c ∷ s) ≡ some (numeral n, r)
unfolding term_step
term_step-minus term body c s n r h q = rw ((digit_first c h).0) (rw q refl)

pub term_step-decimal :
    (term : Reader Term) (body : Reader Body) (n : ℤ) (r : Text)
    → Stops is_digit r
    → term_step term body (decimal n ++ r) ≡ some (numeral n, r)
term_step-decimal term body (pos n) r h =
    let (c, s, e, d) = decimal-cons n in
    subst (λ t. term_step term body (t ++ r) ≡ some (numeral (pos n), r)) (sym e)
      (term_step-digit term body c (s ++ r) (pos n) r d.0
        (subst (λ t. read_integer (t ++ r) ≡ some (pos n, r)) e (read_integer-decimal (pos n) r h)))
term_step-decimal term body (negsuc n) r h =
    let (c, s, e, d) = decimal-minus n in
    subst (λ t. term_step term body (t ++ r) ≡ some (numeral (negsuc n), r)) (sym e)
      (term_step-minus term body c (s ++ r) (negsuc n) r d.0 (
        subst (λ t. read_integer (t ++ r) ≡ some (negsuc n, r)) e
          (read_integer-decimal (negsuc n) r h)))

pub bracketed-reads :
    (body : Reader Body) (make : Body → Term) (s : Text) (b : Body) (r : Text)
    → body s ≡ some (b, b')' ∷ r)
    → bracketed body make s ≡ some (make b, r)
unfolding bracketed strip
bracketed-reads body make s b r h = rw h refl

pub subscript-shift :
    (name : Text) (i : Term) (low : ℤ) (r : Text)
    → subscript name i (shift_text low ++ r) ≡ some (cell name i low, r)
unfolding subscript strip
subscript-shift name i (pos zero) r = refl
subscript-shift name i (pos (suc n)) r =
    rw
      (
        append_assoc (decimal (pos (suc n))) (codes "]") r,
        read_integer-decimal (pos (suc n)) (b']' ∷ r) refl,
      )
      refl
subscript-shift name i (negsuc n) r =
    rw
      (
        append_assoc (decimal (negsuc n)) (codes "]") r,
        read_integer-decimal (negsuc n) (b']' ∷ r) refl,
      )
      refl

pub body_step-operand :
    (term : Reader Term) (s : Text) (a : Term) (r : Text)
    → same (span is_follow s).0 (codes "if") ≡ false
    → term s ≡ some (a, r)
    → body_step term s ≡ operand term a r
unfolding body_step
body_step-operand term s a r h k = rw (h, k) refl

pub operand-applied :
    (term : Reader Term) (k : Operator) (a b : Term) (s r : Text)
    → term s ≡ some (b, r)
    → operand term a (b' ' ∷ (operator_text k ++ b' ' ∷ s)) ≡ some (applied k a b, r)
unfolding operand
operand-applied term add a b s r h = rw h refl
operand-applied term subtract a b s r h = rw h refl
operand-applied term times a b s r h = rw h refl
operand-applied term over a b s r h = rw h refl
operand-applied term remains a b s r h = rw h refl
operand-applied term both a b s r h = rw h refl
operand-applied term below a b s r h = rw h refl
operand-applied term at_most a b s r h = rw h refl
operand-applied term equals a b s r h = rw h refl
operand-applied term differs a b s r h = rw h refl
operand-applied term at_least a b s r h = rw h refl
operand-applied term above a b s r h = rw h refl

-- The readers of the alternatives in turn.
pub body_step-choice :
    (term : Reader Term) (c a b : Term) (s t v r : Text)
    → term s ≡ some (c, codes " then " ++ t)
    → term t ≡ some (a, codes " else " ++ v)
    → term v ≡ some (b, r)
    → body_step term (codes "if " ++ s) ≡ some (choice c a b, r)
unfolding body_step
body_step-choice term c a b s t v r h k l = rw (h, k, l) refl
