-- ===== src/Processes/Names.antt =====
-- The names of the instances of a process (src/utot-translate.cc, src/utot-contextprefix.hh).
use mathlib.Core.List.{append_cancel_left}
use uppaal_to_tchecker.Base.{
  ◌≤◌, Text, codes, List, [], ◌∷◌, ◌++◌, length, All, append_assoc, ◌≡◌, refl, sym, ◌∙◌, arith,
}
use uppaal_to_tchecker.Base.Integers.{ℤ, decimal, decimal-le, decimal-injective}
use uppaal_to_tchecker.Utap.{Symbol, Utap}
use uppaal_to_tchecker.Prefix.{Prefix, rest_of, string_of}
use uppaal_to_tchecker.Processes.{assignment_to_string}

-- The parts that the values of some parameters add to a prefix.
abbrev pub values : Utap → List Symbol → List ℤ → Prefix
values u (s ∷ ss) (i ∷ is) = assignment_to_string u s i ∷ values u ss is
values u _ _ = []

-- Nothing, or a text that an underscore starts.
abbrev Continues : Text → Type 0
Continues [] = Unit {0}
Continues (c ∷ s) = c ≡ b'_'

rest_of-Continues : (p : Prefix) → Continues (rest_of p)
unfolding rest_of
rest_of-Continues [] = tt
rest_of-Continues (s ∷ p) = refl

abbrev Plain : Text → Type 0
Plain = All (λ c. c ≤ b'9')

split :
    (s t x y : Text)
    → Plain s
    → Plain t
    → Continues x
    → Continues y
    → s ++ x ≡ t ++ y
    → (s ≡ t) × (x ≡ y)
split [] [] x y hs ht hx hy e = (refl, e)
split [] (d ∷ t) [] y hs ht hx hy e = absurd (ground arith)
split [] (d ∷ t) (c ∷ x) y hs ht hx hy e = absurd (ground arith)
split (c ∷ s) [] x [] hs ht hx hy e = absurd (ground arith)
split (c ∷ s) [] x (d ∷ y) hs ht hx hy e = absurd (ground arith)
split (c ∷ s) (d ∷ t) x y hs ht hx hy e =
    let rest : s ++ x ≡ t ++ y = ground arith in
    let (q, r) = split s t x y hs.1 ht.1 hx hy rest in
    let head : c ≡ d = ground arith in (rw (head, q) refl, r)

rest_of-values :
    (u : Utap) (s : Symbol) (i : ℤ) (p : Prefix)
    → rest_of (assignment_to_string u s i ∷ p)
      ≡ codes "_" ++ (u.symbol_name s ++ (codes "_" ++ (decimal i ++ rest_of p)))
unfolding rest_of assignment_to_string
rest_of-values u s i p = simp append_assoc

values-injective :
    (u : Utap) (ss : List Symbol) (is js : List ℤ)
    → length is ≡ length ss
    → length js ≡ length ss
    → rest_of (values u ss is) ≡ rest_of (values u ss js)
    → is ≡ js
values-injective u [] [] [] h k e = refl
values-injective u [] [] (j ∷ js) h k e = absurd (ground arith)
values-injective u [] (i ∷ is) js h k e = absurd (ground arith)
values-injective u (s ∷ ss) [] js h k e = absurd (ground arith)
values-injective u (s ∷ ss) (i ∷ is) [] h k e = absurd (ground arith)
values-injective u (s ∷ ss) (i ∷ is) (j ∷ js) h k e =
    let p = values u ss is in
    let q = values u ss js in
    let shown = sym (rest_of-values u s i p) ∙ e ∙ rest_of-values u s j q in
    let after_name = append_cancel_left (codes "_") _ _ shown in
    let after_mark = append_cancel_left (u.symbol_name s) _ _ after_name in
    let tails =
      append_cancel_left (codes "_") (decimal i ++ rest_of p) (decimal j ++ rest_of q) after_mark in
    let (digits, rest) =
      split (decimal i) (decimal j) (rest_of p) (rest_of q) (decimal-le i) (decimal-le j)
        (rest_of-Continues p) (rest_of-Continues q) tails in
    rw
      (decimal-injective i j digits, values-injective u ss is js (ground arith) (ground arith) rest)
      refl

-- Two instances of a process that give the same parameters different values have different names:
-- whatever the names of the process and of the parameters, the name of an instance determines its values.
pub string_of-values-injective :
    (u : Utap) (name : Text) (ss : List Symbol) (is js : List ℤ)
    → length is ≡ length ss
    → length js ≡ length ss
    → string_of (name ∷ values u ss is) ≡ string_of (name ∷ values u ss js)
    → is ≡ js
unfolding string_of
string_of-values-injective u name ss is js h k e =
    values-injective u ss is js h k
      (append_cancel_left name (rest_of (values u ss is)) (rest_of (values u ss js)) e)
