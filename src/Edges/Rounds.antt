-- ===== src/Edges/Rounds.antt =====
-- Loops over values as one pass over a list that is built first (src/utot-translate.cc).
use uppaal_to_tchecker.Base.{
  ℕ, zero, suc, List, [], ◌++◌, ◌≡◌, refl, sym, ap, ◌∙◌, In, In-append, inl, inr, Bool, true, false,
  ◌&&◌,
}
use uppaal_to_tchecker.Base.Integers.{ℤ, pos, ◌+ℤ◌, ◌-ℤ◌, ◌≤ℤ◌, leb_ℤ, eqb_ℤ}
use uppaal_to_tchecker.Outcome.{Outcome, ok, ◌>>=◌, bind-ok, bind-cong, ok-injective}
use uppaal_to_tchecker.Outcome.Passes.{run_all, run_all-append}
use uppaal_to_tchecker.Utap.{Symbol, Utap}
use uppaal_to_tchecker.Expr.{Instance, eval_integer_constant, int_max}
use uppaal_to_tchecker.Decl.{count_of}
use uppaal_to_tchecker.Decl.Ranges.{
  Runs, stop, round, count_of-none, count_of-suc, next, first, below_max,
}
use uppaal_to_tchecker.Edges.{each_value, enumeration}

-- The items of each value of a range, in order.
unfoldable pub collect : {A : Type 0} → (ℤ → Outcome (List A)) → ℤ → ℕ → ℕ → Outcome (List A)
collect items low k zero = ok []
collect items low k (suc n) = do
  xs ← items (low +ℤ pos k)
  ys ← collect items low (suc k) n
  ok (xs ++ ys)

module _ {A S : Type 0} (step : A → S → Outcome S) (items : ℤ → Outcome (List A))
    (body : ℤ → S → Outcome S)
    (one_pass : (i : ℤ) (xs : List A)
      → items i ≡ ok xs
      → (s : S) → body i s ≡ run_all step xs s) where
  -- A loop whose rounds are passes over lists is a pass over their concatenation.
  pub each_value-run_all :
      (low : ℤ) (k n : ℕ) (xs : List A)
      → collect items low k n ≡ ok xs
      → (s : S) → each_value body low k n s ≡ run_all step xs s
  unfolding each_value collect run_all
  each_value-run_all low k zero xs q s = ap (λ l. run_all step l s) (ok-injective [] xs q)
  each_value-run_all low k (suc n) xs q s =
      let (ys, here, rest) = bind-ok (items (low +ℤ pos k)) _ xs q in
      let (zs, later, both) = bind-ok (collect items low (suc k) n) _ xs rest in
      ap (λ m. m >>= each_value body low (suc k) n) (one_pass (low +ℤ pos k) ys here s)
      ∙ bind-cong (run_all step ys s) (each_value body low (suc k) n) (run_all step zs)
          (λ r. each_value-run_all low (suc k) n zs later r)
      ∙ sym (run_all-append step ys zs s)
      ∙ ap (λ l. run_all step l s) (ok-injective (ys ++ zs) xs both)

-- A loop from `i` on that adds lists collects the values from `i` to `high`.
collect-Runs :
    {A : Type 0} (items : ℤ → Outcome (List A)) (listed : ℤ → List A → Type 0)
    (each : (i : ℤ) (xs : List A) → listed i xs → items i ≡ ok xs) (high low i : ℤ) (k : ℕ)
    (xs : List A)
    → low +ℤ pos k ≡ i
    → Runs listed high i xs
    → collect items low k (count_of (high -ℤ i +ℤ pos 1)) ≡ ok xs
unfolding collect
collect-Runs items listed each high low i k xs e (stop h) = rw (count_of-none high i h) refl
collect-Runs items listed each high low i k xs e (round {xs = ys} {ys = zs} h here later both) =
    let at : low +ℤ pos (suc k) ≡ i +ℤ pos 1 = sym (next low k) ∙ ap (λ j. j +ℤ pos 1) e in
    rw
      (
        count_of-suc high i h,
        e,
        each i ys here,
        collect-Runs items listed each high low (i +ℤ pos 1) (suc k) zs at later,
        both,
      )
      refl

pub collect-listed :
    {A : Type 0} (items : ℤ → Outcome (List A)) (listed : ℤ → List A → Type 0)
    (each : (i : ℤ) (xs : List A) → listed i xs → items i ≡ ok xs) (low high : ℤ) (xs : List A)
    → Runs listed high low xs
    → collect items low 0 (count_of (high -ℤ low +ℤ pos 1)) ≡ ok xs
collect-listed items listed each low high xs h =
    collect-Runs items listed each high low low 0 xs (first low) h

-- The bounds of the type of a symbol, the last of them below the largest int.
pub record IsRange (u : Utap) (p : Instance) (g : ℕ) (s : Symbol) (low high : ℤ) : Type 0 where
  pub ranges : u.is_range (u.symbol_type s) ≡ true
  pub lowest : eval_integer_constant u p g (u.get_range (u.symbol_type s)).0 ≡ ok low
  pub highest : eval_integer_constant u p g (u.get_range (u.symbol_type s)).1 ≡ ok high
  pub no_overflow : high +ℤ pos 1 ≤ℤ int_max

pub enumeration-IsRange :
    (u : Utap) (p : Instance) (g : ℕ) (s : Symbol) (low high : ℤ)
    → IsRange u p g s low high
    → enumeration u p g s ≡ ok (low, count_of (high -ℤ low +ℤ pos 1))
unfolding enumeration
enumeration-IsRange u p g s low high h =
    let free : eqb_ℤ high int_max ≡ false = below_max high h.no_overflow in
    rw (h.ranges, h.lowest, h.highest, free, and_false (leb_ℤ low high)) refl
  where
    and_false : (b : Bool) → (b && false) ≡ false
    and_false true = refl
    and_false false = refl

-- Each item that is collected belongs to a value.
pub collect-In :
    {A : Type 0} (items : ℤ → Outcome (List A)) (low : ℤ) (k n : ℕ) (xs : List A) (x : A)
    → collect items low k n ≡ ok xs
    → In x xs
    → (i : ℤ) × (ys : List A) × (items i ≡ ok ys) × In x ys
unfolding collect
collect-In items low k zero xs x q h = absurd (rw (← ok-injective [] xs q) at h)
collect-In items low k (suc n) xs x q h =
    let (ys, here, rest) = bind-ok (items (low +ℤ pos k)) _ xs q in
    let (zs, later, both) = bind-ok (collect items low (suc k) n) _ xs rest in
    elim (In-append x ys zs (rw (← ok-injective (ys ++ zs) xs both) at h)) [
      | inl i ↦ (low +ℤ pos k, ys, here, i)
      | inr j ↦ collect-In items low (suc k) n zs x later j
    ]
