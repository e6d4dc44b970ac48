-- ===== src/Translate/Restated.antt =====
-- Reading written statements (src/utot-expr.cc).
use uppaal_to_tchecker.Base.{
  ℕ, zero, suc, ◌*◌, ◌<◌, ◌≤◌, Text, same, true, some, List, [], ◌∷◌, ◌++◌, ◌==◌, length,
  append_assoc, All, ◌≡◌, refl, arith,
}
use uppaal_to_tchecker.Tchecker.{do_nop}
use uppaal_to_tchecker.Translate.Terms.{
  Operator, Term, variable, add, subtract, times, over, remains, both, below, at_most, equals,
  differs, at_least, above, operator_text, print,
}
use uppaal_to_tchecker.Translate.Parts.{Stops}
use uppaal_to_tchecker.Translate.Reader.{Reader, read_term}
use uppaal_to_tchecker.Translate.RoundTrip.{Readable, ends, read_term-print, length-append_text}
use uppaal_to_tchecker.Translate.Statements.{
  Statement, nop, set, update, print_statement, print_more, arithmetic_of, after_value,
  after_target, read_statement, read_statements, read_assignment,
}

ruleset lengths = (arith, length-append_text)

unfoldable pub IsReadable : Statement → Type 0
unfolding Readable
IsReadable nop = Unit
IsReadable (set t a) = Readable t × Readable a
IsReadable (update t k a b) = (arithmetic_of k ≡ true) × (Readable t × (Readable a × Readable b))

-- The end of the text, or a semicolon.
abbrev pub IsEnd : Text → Type 0
IsEnd [] = Unit
IsEnd (c ∷ r) = (c == b';') ≡ true

IsEnd-Stops : (r : Text) → IsEnd r → Stops ends r
IsEnd-Stops [] h = tt
IsEnd-Stops (c ∷ r) h = ground arith

after_target-nop :
    (term : Reader Term) (r : Text)
    → IsEnd r
    → after_target term (variable do_nop) r ≡ some (nop, r)
unfolding after_target same
after_target-nop term [] h = refl
after_target-nop term (c ∷ r) h = let semicolon : c ≡ b';' = ground arith in rw semicolon refl

after_value-end :
    (term : Reader Term) (t a : Term) (r : Text)
    → IsEnd r
    → after_value term t a r ≡ some (set t a, r)
unfolding after_value
after_value-end term t a [] h = refl
after_value-end term t a (c ∷ r) h = let semicolon : c ≡ b';' = ground arith in rw semicolon refl

after_value-operator :
    (term : Reader Term) (t a b : Term) (k : Operator) (s r : Text)
    → arithmetic_of k ≡ true
    → term s ≡ some (b, r)
    → after_value term t a (operator_text k ++ s) ≡ some (update t k a b, r)
unfolding after_value
after_value-operator term t a b add s r h q = rw q refl
after_value-operator term t a b subtract s r h q = rw q refl
after_value-operator term t a b times s r h q = rw q refl
after_value-operator term t a b over s r h q = rw q refl
after_value-operator term t a b remains s r h q = rw q refl
after_value-operator term t a b both s r h q = cc
after_value-operator term t a b below s r h q = cc
after_value-operator term t a b at_most s r h q = cc
after_value-operator term t a b equals s r h q = cc
after_value-operator term t a b differs s r h q = cc
after_value-operator term t a b at_least s r h q = cc
after_value-operator term t a b above s r h q = cc

operator_Stops :
    (k : Operator) (s : Text) → arithmetic_of k ≡ true → Stops ends (operator_text k ++ s)
operator_Stops add s h = refl
operator_Stops subtract s h = refl
operator_Stops times s h = refl
operator_Stops over s h = refl
operator_Stops remains s h = refl
operator_Stops _ s h = ground arith

-- With fuel for its length, a printed statement is read off the front of a text.
read_statement-print :
    (x : Statement) (r : Text) (f : ℕ)
    → IsReadable x
    → IsEnd r
    → 2 * length (print_statement x) < f
    → read_statement (read_term f) (print_statement x ++ r) ≡ some (x, r)
unfolding print_statement IsReadable read_statement
read_statement-print nop r f h e l =
    rw
      (read_term-print (variable do_nop) r f (refl, (refl, (refl, tt)), refl) (IsEnd-Stops r e)
        (omega arith))
      (after_target-nop (read_term f) r e)
read_statement-print (set t a) r f (q, q') e l =
    rw
      (
        append_assoc (print t) (b'=' ∷ print a) r,
        read_term-print t (b'=' ∷ (print a ++ r)) f q refl (omega lengths),
        read_term-print a r f q' (IsEnd-Stops r e) (omega lengths),
      )
      (after_value-end (read_term f) t a r e)
read_statement-print (update t k a b) r f (o, (q, (q', q''))) e l =
    let rest = operator_text k ++ (print b ++ r) in
    rw
      (
        append_assoc (print t) (b'=' ∷ (print a ++ (operator_text k ++ print b))) r,
        append_assoc (print a) (operator_text k ++ print b) r,
        append_assoc (operator_text k) (print b) r,
        read_term-print t (b'=' ∷ (print a ++ rest)) f q refl (omega lengths),
        read_term-print a rest f q' (operator_Stops k (print b ++ r) o) (omega lengths),
      )
      (after_value-operator (read_term f) t a b k (print b ++ r) r o
        (read_term-print b r f q'' (IsEnd-Stops r e) (omega lengths)))

print_more-IsEnd : (xs : List Statement) → IsEnd (print_more xs)
unfolding print_more
print_more-IsEnd [] = tt
print_more-IsEnd (x ∷ xs) = refl

print_more-length : (xs : List Statement) → length xs ≤ length (print_more xs)
unfolding print_more
print_more-length [] = omega arith
print_more-length (x ∷ xs) = let h = print_more-length xs in omega (lengths, h)

read_statements-print :
    (x : Statement) (xs : List Statement) (n f : ℕ)
    → IsReadable x
    → All IsReadable xs
    → length xs < n
    → 2 * length (print_statement x ++ print_more xs) < f
    → read_statements n (read_term f) (print_statement x ++ print_more xs) ≡ some (x ∷ xs)
unfolding read_statements print_more
read_statements-print x xs zero f q qs h l = absurd (omega arith)
read_statements-print x [] (suc n) f q qs h l =
    rw (read_statement-print x [] f q tt (omega lengths)) refl
read_statements-print x (y ∷ ys) (suc n) f q qs h l =
    let rest = b';' ∷ (print_statement y ++ print_more ys) in
    rw
      (
        read_statement-print x rest f q refl (omega lengths),
        read_statements-print y ys n f qs.0 qs.1 (omega arith) (omega lengths),
      )
      refl

-- Printed statements whose names are identifiers are read back.
pub read_assignment-print :
    (x : Statement) (xs : List Statement)
    → IsReadable x
    → All IsReadable xs
    → read_assignment (print_statement x ++ print_more xs) ≡ some (x ∷ xs)
unfolding read_assignment
read_assignment-print x xs q qs =
    let more = print_more-length xs in
    let n = length (print_statement x ++ print_more xs) in
    read_statements-print x xs (suc n) (suc (2 * n)) q qs (omega (lengths, more)) (omega arith)
