-- ===== src/Decl/Ranges.antt =====
-- The loops `for (i = low; i <= high; i++)` over the values of a range (src/utot-decl.cc,
-- src/utot-translate.cc).
use uppaal_to_tchecker.Base.{ℕ, suc, ◌+◌, ◌-◌, List, [], ◌++◌, ◌≡◌, false, arith}
use uppaal_to_tchecker.Base.Integers.{ℤ, pos, negsuc, pos_part, neg_part, ◌+ℤ◌, ◌-ℤ◌, ◌≤ℤ◌, eqb_ℤ}
use uppaal_to_tchecker.Expr.{int_max}
use uppaal_to_tchecker.Decl.{count_of}

-- The loop from `i` on, whose rounds add the lists that `items` says, adds this list.
pub data Runs {A : Type 0} (items : ℤ → List A → Type 0) (high : ℤ) : ℤ → List A → Type 0 where
  stop : {i : ℤ} → (high +ℤ pos 1) ≤ℤ i → Runs items high i []
  round :
      {i : ℤ} {xs ys zs : List A}
      → i ≤ℤ high
      → items i xs
      → Runs items high (i +ℤ pos 1) ys
      → xs ++ ys ≡ zs
      → Runs items high i zs

count_of-sub :
    (high i : ℤ)
    → count_of (high -ℤ i +ℤ pos 1) ≡ pos_part high + neg_part i + 1 - (pos_part i + neg_part high)
unfolding ◌+ℤ◌ ◌-ℤ◌
count_of-sub (pos a) (pos b) = ground arith
count_of-sub (pos a) (negsuc b) = ground arith
count_of-sub (negsuc a) (pos b) = ground arith
count_of-sub (negsuc a) (negsuc b) = ground arith

following : (i : ℤ) → pos_part (i +ℤ pos 1) + neg_part i ≡ pos_part i + neg_part (i +ℤ pos 1) + 1
unfolding ◌+ℤ◌
following (pos a) = ground arith
following (negsuc a) = ground arith

pub count_of-none : (high i : ℤ) → high +ℤ pos 1 ≤ℤ i → count_of (high -ℤ i +ℤ pos 1) ≡ 0
count_of-none high i h = rw (count_of-sub high i) (omega (arith, following high, h))

pub count_of-suc :
    (high i : ℤ)
    → i ≤ℤ high
    → count_of (high -ℤ i +ℤ pos 1) ≡ suc (count_of (high -ℤ (i +ℤ pos 1) +ℤ pos 1))
count_of-suc high i h =
    rw (count_of-sub high i, count_of-sub high (i +ℤ pos 1)) (omega (arith, following i, h))

pub next : (low : ℤ) (k : ℕ) → low +ℤ pos k +ℤ pos 1 ≡ low +ℤ pos (suc k)
unfolding ◌+ℤ◌
next (pos a) k = ground arith
next (negsuc a) k = ground arith

pub first : (low : ℤ) → low +ℤ pos 0 ≡ low
unfolding ◌+ℤ◌
first (pos a) = ground arith
first (negsuc a) = ground arith

pub below_max : (high : ℤ) → high +ℤ pos 1 ≤ℤ int_max → eqb_ℤ high int_max ≡ false
below_max high h = ground (arith, following high)
