-- ===== src/Translate/RoundTrip.antt =====
-- Reading a written expression (src/utot-expr.cc).
use mathlib.Core.Path.{subst}
use uppaal_to_tchecker.Base.{
  ℕ, zero, suc, Text, codes, same, Bool, true, false, some, [], ◌∷◌, ◌++◌, ◌+◌, ◌*◌, ◌<◌, ◌≤◌, ◌==◌,
  ◌||◌, ◌≡◌, refl, sym, ◌∙◌, arith, length, length-append, append_assoc, append-nil,
}
use uppaal_to_tchecker.Base.Integers.{ℤ, pos, negsuc, is_digit, decimal-cons, decimal-minus}
use uppaal_to_tchecker.Translate.Terms.{
  Term, Body, variable, numeral, cell, negation, opposite, group, single, applied, choice,
  operator_text, print, print_body, shift_text,
}
use uppaal_to_tchecker.Translate.Reader.{
  is_follow, span, bracketed, indexed, read_term, read_body, Reader, read_expression,
}
use uppaal_to_tchecker.Translate.Parts.{
  Stops, span-append, IsName, IsName-follow, IsName-ne, operand-applied, body_step-operand,
  body_step-choice, term_step-name, term_step-decimal, bracketed-reads, subscript-shift,
}

pub length-append_text : (s t : Text) → length (s ++ t) ≡ length s + length t
length-append_text = length-append

ruleset lengths = (arith, length-append_text)

-- What may follow a term.
abbrev pub ends : ℕ → Bool
ends c = is_follow c || c == b'['

unfoldable mutual
  pub Readable : Term → Type 0
  Readable (variable name) = IsName name
  Readable (numeral n) = Unit
  Readable (cell name i low) = IsName name × Readable i
  Readable (negation b) = ReadableBody b
  Readable (opposite b) = ReadableBody b
  Readable (group b) = ReadableBody b

  pub ReadableBody : Body → Type 0
  ReadableBody (single t) = Readable t
  ReadableBody (applied k a b) = Readable a × Readable b
  ReadableBody (choice c a b) = Readable c × Readable a × Readable b

ends-follow : (r : Text) → Stops ends r → Stops is_follow r
ends-follow [] e = tt
ends-follow (c ∷ r) e = ground arith

follow-digit : (r : Text) → Stops is_follow r → Stops is_digit r
follow-digit [] e = tt
follow-digit (c ∷ r) e = ground arith

indexed-variable :
    (term : Reader Term) (name r : Text)
    → Stops ends r
    → indexed term name r ≡ some (variable name, r)
unfolding indexed
indexed-variable term name [] e = refl
indexed-variable term name (c ∷ r) e = ground arith

indexed-cell :
    (term : Reader Term) (name : Text) (i : Term) (low : ℤ) (s r : Text)
    → term s ≡ some (i, shift_text low ++ r)
    → indexed term name (b'[' ∷ s) ≡ some (cell name i low, r)
unfolding indexed
indexed-cell term name i low s r h = rw h (subscript-shift name i low r)

digit_word :
    (c : ℕ) (s : Text) → is_digit c ≡ true → same (span is_follow (c ∷ s)).0 (codes "if") ≡ false
unfolding span same
digit_word c s h = ground arith

-- A term does not start with the keyword `if`.
first_word :
    (t : Term) (r : Text)
    → Readable t
    → Stops ends r
    → same (span is_follow (print t ++ r)).0 (codes "if") ≡ false
unfolding print Readable span same
first_word (variable name) r q e =
    rw (span-append is_follow name r (IsName-follow name q) (ends-follow r e)) (IsName-ne name q)
first_word (numeral (pos n)) r q e =
    let (c, s, p, d) = decimal-cons n in
    subst (λ t. same (span is_follow (t ++ r)).0 (codes "if") ≡ false) (sym p)
      (digit_word c (s ++ r) d.0)
first_word (numeral (negsuc n)) r q e =
    let (c, s, p, d) = decimal-minus n in
    subst (λ t. same (span is_follow (t ++ r)).0 (codes "if") ≡ false) (sym p) refl
first_word (cell name i low) r q e =
    rw
      (
        append_assoc name (b'[' ∷ (print i ++ shift_text low)) r,
        span-append is_follow name (b'[' ∷ ((print i ++ shift_text low) ++ r))
            (IsName-follow name q.0) refl,
      )
      (IsName-ne name q.0)
first_word (negation b) r q e = refl
first_word (opposite b) r q e = refl
first_word (group b) r q e = refl

shift-Stops : (low : ℤ) (r : Text) → Stops ends (shift_text low ++ r)
shift-Stops (pos zero) r = refl
shift-Stops (pos (suc n)) r = refl
shift-Stops (negsuc n) r = refl

-- The reader takes the text of the term and stops at what may follow it.
abbrev ReadsTerm : Term → Type 0
ReadsTerm t =
    Readable t
    → (r : Text) → Stops ends r
    → (f : ℕ) → 2 * length (print t) < f
    → read_term f (print t ++ r) ≡ some (t, r)

abbrev ReadsBody : Body → Type 0
ReadsBody b =
    ReadableBody b
    → (r : Text) → (f : ℕ) → suc (2 * length (print_body b)) < f
    → read_body f (print_body b ++ b')' ∷ r) ≡ some (b, b')' ∷ r)

-- Fuel above a bound is not zero.
unspent {ℓ} :
    {b : ℕ} (P : ℕ → Type ℓ)
    → ((rest : ℕ) → b ≤ rest → P (suc rest))
    → (fuel : ℕ) → b < fuel
    → P fuel
unspent P step (suc rest) h = step rest (omega arith)
unspent P step zero h = absurd (omega arith)

bracketed-printed :
    (make : Body → Term) (b : Body) (r : Text) (f : ℕ)
    → ReadsBody b
    → ReadableBody b
    → suc (2 * length (print_body b)) < f
    → bracketed (read_body f) make ((print_body b ++ codes ")") ++ r) ≡ some (make b, r)
bracketed-printed make b r f ih q h =
    rw (append_assoc (print_body b) (codes ")") r)
      (bracketed-reads (read_body f) make (print_body b ++ b')' ∷ r) b r (ih q r f h))

reads : (t : Term) → ReadsTerm t
unfolding read_term print Readable
reads t = elim t as ReadsTerm ReadsBody [
  | variable name ↦ λ q r e. unspent _ λ f h.
      term_step-name (read_term f) (read_body f) name r q (ends-follow r e)
      ∙ indexed-variable (read_term f) name r e
  | numeral n ↦ λ q r e.
      unspent _
        λ f h. term_step-decimal (read_term f) (read_body f) n r (follow-digit r (ends-follow r e))
  | cell name (i → ih) low ↦ λ q r e. unspent _ λ f h.
      rw
        (
          append_assoc name (b'[' ∷ (print i ++ shift_text low)) r,
          append_assoc (print i) (shift_text low) r,
          term_step-name (read_term f) (read_body f) name
              (b'[' ∷ (print i ++ (shift_text low ++ r))) q.0 refl,
        )
        (indexed-cell (read_term f) name i low (print i ++ (shift_text low ++ r)) r
          (ih q.1 (shift_text low ++ r) (shift-Stops low r) f (omega lengths)))
  | negation (b → ih) ↦
      λ q r e. unspent _ λ f h. bracketed-printed negation b r f ih q (omega lengths)
  | opposite (b → ih) ↦
      λ q r e. unspent _ λ f h. bracketed-printed opposite b r f ih q (omega lengths)
  | group (b → ih) ↦ λ q r e. unspent _ λ f h. bracketed-printed group b r f ih q (omega lengths)
  | single (a → ih) ↦ λ q r. unspent _ λ f h.
      body_step-operand (read_term f) (print a ++ b')' ∷ r) a (b')' ∷ r)
        (first_word a (b')' ∷ r) q refl) (ih q (b')' ∷ r) refl f (omega arith))
  | applied k (a → ih) (b → ihb) ↦ λ q r. unspent _ λ f h.
      let after = b' ' ∷ (operator_text k ++ b' ' ∷ (print b ++ b')' ∷ r)) in
      rw
        (
          append_assoc (print a) (b' ' ∷ (operator_text k ++ b' ' ∷ print b)) (b')' ∷ r),
          append_assoc (operator_text k) (b' ' ∷ print b) (b')' ∷ r),
        )
        (body_step-operand (read_term f) (print a ++ after) a after (first_word a after q.0 refl)
            (ih q.0 after refl f (omega lengths))
          ∙ operand-applied (read_term f) k a b (print b ++ b')' ∷ r) (b')' ∷ r)
              (ihb q.1 (b')' ∷ r) refl f (omega lengths)))
  | choice (c → ihc) (a → ih) (b → ihb) ↦ λ q r. unspent _ λ f h.
      let final = print b ++ b')' ∷ r in
      let second = print a ++ (codes " else " ++ final) in
      rw
        (
          append_assoc (print c) (codes " then " ++ (print a ++ (codes " else " ++ print b)))
              (b')' ∷ r),
          append_assoc (print a) (codes " else " ++ print b) (b')' ∷ r),
        )
        (body_step-choice (read_term f) c a b (print c ++ (codes " then " ++ second)) second final
          (b')' ∷ r) (ihc q.0 (codes " then " ++ second) refl f (omega lengths))
          (ih q.1 (codes " else " ++ final) refl f (omega lengths))
          (ihb q.2 (b')' ∷ r) refl f (omega lengths)))
]

-- With fuel for its length, the reader reads a printed term off the front of any text, and what may
-- follow a term is left.
pub read_term-print :
    (t : Term) (r : Text) (f : ℕ)
    → Readable t
    → Stops ends r
    → 2 * length (print t) < f
    → read_term f (print t ++ r) ≡ some (t, r)
read_term-print t r f q e h = reads t q r e f h

-- A printed term whose names are identifiers is read back.
pub read_expression-print : (t : Term) → Readable t → read_expression (print t) ≡ some t
unfolding read_expression
read_expression-print t q =
    let whole = read_term-print t [] (suc (2 * length (print t))) q tt (omega arith) in
    rw (rw append-nil at whole) refl
