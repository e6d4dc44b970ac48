-- ===== src/Base/Integers.antt =====
-- C++ `int` values as integers over the native numbers, and their decimal print.
use Prim.Native.Nat.{ℕ, zero, suc, ◌+◌, ◌-◌, ◌*◌, ◌/◌, ◌%◌, ◌≤◌, ◌<◌}
use mathlib.Core.Path.{◌≡◌, refl, ap, subst, ◌∙◌}
use mathlib.Core.Bool.{Bool, true, ◌&&◌}
use mathlib.Core.Logic.{inl, inr}
use mathlib.Core.List.{[], ◌∷◌, ◌++◌, foldl, foldl-append}
use native.Mathlib.Omega.{arith}
use uppaal_to_tchecker.Base.Tests.{ltb, leb, ◌==◌, if◌then◌else◌, All, All-append, Bool-cases}
use uppaal_to_tchecker.Base.Bytes.{Text}

-- `negsuc n` is -(n + 1).
pub data ℤ : Type 0 where
  pos : ℕ → ℤ
  negsuc : ℕ → ℤ

abbrev pub pos_part : ℤ → ℕ
pos_part (pos n) = n
pos_part (negsuc n) = 0

abbrev pub neg_part : ℤ → ℕ
neg_part (pos n) = 0
neg_part (negsuc n) = suc n

-- a - b, as an integer.
abbrev pub sub_ℕ : ℕ → ℕ → ℤ
sub_ℕ a b = if leb b a then pos (a - b) else negsuc (b - a - 1)

infixl 65 ◌+ℤ◌ ◌-ℤ◌
infixl 70 ◌*ℤ◌
infix 50 ◌≤ℤ◌
unfoldable pub ◌+ℤ◌ : ℤ → ℤ → ℤ
a +ℤ b = sub_ℕ (pos_part a + pos_part b) (neg_part a + neg_part b)

unfoldable pub ◌-ℤ◌ : ℤ → ℤ → ℤ
a -ℤ b = sub_ℕ (pos_part a + neg_part b) (neg_part a + pos_part b)

unfoldable pub ◌*ℤ◌ : ℤ → ℤ → ℤ
a *ℤ b =
    sub_ℕ (pos_part a * pos_part b + neg_part a * neg_part b)
      (pos_part a * neg_part b + neg_part a * pos_part b)

abbrev pub ◌≤ℤ◌ : ℤ → ℤ → Type 0
a ≤ℤ b = pos_part a + neg_part b ≤ pos_part b + neg_part a

abbrev pub ltb_ℤ : ℤ → ℤ → Bool
ltb_ℤ a b = ltb (pos_part a + neg_part b) (pos_part b + neg_part a)

abbrev pub leb_ℤ : ℤ → ℤ → Bool
leb_ℤ a b = leb (pos_part a + neg_part b) (pos_part b + neg_part a)

abbrev pub eqb_ℤ : ℤ → ℤ → Bool
eqb_ℤ a b = (pos_part a + neg_part b) == (pos_part b + neg_part a)

-- Decimal digits. Each round divides by ten, so `n + 1` rounds are enough for `n`.
digits : ℕ → ℕ → Text
digits zero n = []
digits (suc f) n =
    let rest = digits f (n / 10) in
    if ltb n 10 then (b'0' + n) ∷ [] else rest ++ ((b'0' + n % 10) ∷ [])

-- out << n
unfoldable pub decimal : ℤ → Text
unfolding digits
decimal (pos n) = digits (n + 1) n
decimal (negsuc n) = b'-' ∷ digits (n + 2) (n + 1)

-- The number that digits spell.
abbrev pub value : Text → ℕ
value = foldl (λ n c. n * 10 + (c - b'0')) 0

value-append : (s : Text) (c : ℕ) → value (s ++ c ∷ []) ≡ value s * 10 + (c - b'0')
value-append s c = rw foldl-append

value-digits : (f n : ℕ) → n < f → value (digits f n) ≡ n
unfolding digits
value-digits zero n h = absurd (omega arith)
value-digits (suc f) n h =
    ground (arith, value-append (digits f (n / 10)) (b'0' + n % 10), value-digits f (n / 10))

IsDigit : ℕ → Type 0
IsDigit c = b'0' ≤ c

digits-IsDigit : (f n : ℕ) → All IsDigit (digits f n)
unfolding digits IsDigit
digits-IsDigit zero n = tt
digits-IsDigit (suc f) n = elim (Bool-cases (ltb n 10)) [
  | inl small ↦ rw small (omega arith)
  | inr large ↦ rw large (
      All-append IsDigit (digits f (n / 10)) ((b'0' + n % 10) ∷ []) (digits-IsDigit f (n / 10))
        (omega arith))
]

-- The integer that a decimal print spells.
pub read : Text → ℤ
read [] = pos 0
read (c ∷ s) = if c == b'-' then negsuc (value s - 1) else pos (value (c ∷ s))

read_pos : (s : Text) → All IsDigit s → read s ≡ pos (value s)
unfolding read IsDigit
read_pos [] h = refl
read_pos (c ∷ s) h = ground arith

-- Every printed integer is read back.
pub read-decimal : (z : ℤ) → read (decimal z) ≡ z
unfolding decimal
read-decimal (pos n) =
    read_pos (digits (n + 1) n) (digits-IsDigit (n + 1) n)
    ∙ ap pos (value-digits (n + 1) n (omega arith))
read-decimal (negsuc n) =
    unfold read in rw (value-digits (n + 2) (n + 1) (omega arith)) (ap negsuc (omega arith))

-- No two integers print alike.
pub decimal-injective : (a b : ℤ) → decimal a ≡ decimal b → a ≡ b
decimal-injective a b e = cc (read-decimal a, read-decimal b)

digits-le : (f n : ℕ) → All (λ c. c ≤ b'9') (digits f n)
unfolding digits
digits-le zero n = tt
digits-le (suc f) n = elim (Bool-cases (ltb n 10)) [
  | inl small ↦ rw small (ground arith)
  | inr large ↦ rw large (
      All-append (λ c. c ≤ b'9') (digits f (n / 10)) ((b'0' + n % 10) ∷ []) (digits-le f (n / 10))
        (omega arith, tt))
]

-- No byte of a printed integer is above the digit nine.
pub decimal-le : (z : ℤ) → All (λ c. c ≤ b'9') (decimal z)
unfolding decimal
decimal-le (pos n) = digits-le (n + 1) n
decimal-le (negsuc n) = (omega arith, digits-le (n + 2) (n + 1))

abbrev pub is_digit : ℕ → Bool
is_digit c = leb b'0' c && leb c b'9'

digits-is_digit : (f n : ℕ) → All (λ c. is_digit c ≡ true) (digits f n)
unfolding digits
digits-is_digit zero n = tt
digits-is_digit (suc f) n = elim (Bool-cases (ltb n 10)) [
  | inl small ↦ rw small (ground arith)
  | inr large ↦ rw large (
      All-append (λ c. is_digit c ≡ true) (digits f (n / 10)) ((b'0' + n % 10) ∷ [])
        (digits-is_digit f (n / 10)) (ground arith))
]

digits-cons : (f n : ℕ) → (c : ℕ) × (s : Text) × (digits (suc f) n ≡ c ∷ s)
unfolding digits
digits-cons f n = elim (Bool-cases (ltb n 10)) [
  | inl small ↦ rw small (b'0' + n, [], refl)
  | inr large ↦ rw large (cons_of (digits f (n / 10)) (b'0' + n % 10))
]
  where
    cons_of : (s : Text) (d : ℕ) → (c : ℕ) × (r : Text) × ((s ++ d ∷ []) ≡ c ∷ r)
    cons_of [] d = (d, [], refl)
    cons_of (c ∷ s) d = (c, s ++ d ∷ [], refl)

-- A printed number is not empty.
pub decimal-cons :
    (n : ℕ)
    → (c : ℕ) × (s : Text) × (decimal (pos n) ≡ c ∷ s) × All (λ c. is_digit c ≡ true) (c ∷ s)
unfolding decimal
decimal-cons n =
    let (c, s, e) = digits-cons n n in
    (
      c,
      s,
      rw (← e) (ap (λ f. digits f n) {y = suc n} (omega arith)),
      subst (All (λ c. is_digit c ≡ true)) e (digits-is_digit (suc n) n),
    )

pub decimal-minus :
    (n : ℕ)
    → (c : ℕ) × (s : Text) × (decimal (negsuc n) ≡ b'-' ∷ c ∷ s)
      × All (λ c. is_digit c ≡ true) (c ∷ s)
unfolding decimal
decimal-minus n =
    let (c, s, e) = digits-cons (suc n) (n + 1) in
    (
      c,
      s,
      rw (← e) (ap (λ f. b'-' ∷ digits f (n + 1)) {y = suc (suc n)} (omega arith)),
      subst (All (λ c. is_digit c ≡ true)) e (digits-is_digit (suc (suc n)) (n + 1)),
    )
