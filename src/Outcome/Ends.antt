-- ===== src/Outcome/Ends.antt =====
-- Runs that end with enough fuel: of evaluations, and of translations.
use uppaal_to_tchecker.Base.{
  ℕ, zero, suc, ◌+◌, ◌≤◌, Bool, true, false, if◌then◌else◌, ◌≡◌, ◌≢◌, refl, arith,
}
use uppaal_to_tchecker.Outcome.{Outcome, ok, thrown, fault, out_of_fuel, ◌>>=◌, require, assert}

-- From some fuel on, the outcome is always the same one, and a proper one.
pub data Ends {A : Type 0} (m : ℕ → ℕ → Outcome A) : Type 0 where
  ends :
      (k : ℕ) (r : Outcome A) → r ≢ out_of_fuel → ((g f : ℕ) → k ≤ g → k ≤ f → m g f ≡ r) → Ends m

module _ {A : Type 0} where
  pub Ends-at : {m : ℕ → ℕ → Outcome A} → Ends m → (k : ℕ) × (m k k ≢ out_of_fuel)
  Ends-at (ends k r n h) = (k, λ e. n (rw (← h k k (omega arith) (omega arith)) e))

  pub Ends-ok : (a : A) → Ends (λ g f. ok a)
  Ends-ok a = ends 0 (ok a) (λ e. cc) (λ g f h k. refl)

  pub Ends-thrown : Ends {A = A} (λ g f. thrown)
  Ends-thrown = ends 0 thrown (λ e. cc) (λ g f h k. refl)

  pub Ends-fault : Ends {A = A} (λ g f. fault)
  Ends-fault = ends 0 fault (λ e. cc) (λ g f h k. refl)

  pub Ends-if :
      (b : Bool) (x y : ℕ → ℕ → Outcome A)
      → Ends x
      → Ends y
      → Ends (λ g f. if b then x g f else y g f)
  Ends-if true x y h k = h
  Ends-if false x y h k = k

  -- A unit of the second fuel goes to the call itself.
  pub Ends-suc : (m : ℕ → ℕ → Outcome A) → Ends (λ g f. m g (suc f)) → Ends m
  Ends-suc m (ends k r n h) = ends (suc k) r n later
    where
      later : (g f : ℕ) → suc k ≤ g → suc k ≤ f → m g f ≡ r
      later g zero p q = absurd (omega arith)
      later g (suc f) p q = h g f (omega arith) (omega arith)

pub Ends-bind :
    {A B : Type 0} (m : ℕ → ℕ → Outcome A) (f : ℕ → ℕ → A → Outcome B)
    → Ends m
    → ((a : A) → Ends (λ g h. f g h a))
    → Ends (λ g h. m g h >>= f g h)
Ends-bind m f (ends k (ok a) n h) rest = both (rest a)
  where
    both : Ends (λ g h. f g h a) → Ends (λ g h. m g h >>= f g h)
    both (ends k' r n' h') =
        ends (k + k') r n'
          λ x y p q. rw (h x y (omega arith) (omega arith)) (h' x y (omega arith) (omega arith))
Ends-bind m f (ends k thrown n h) rest = ends k thrown (λ e. cc) λ x y p q. rw (h x y p q) refl
Ends-bind m f (ends k fault n h) rest = ends k fault (λ e. cc) λ x y p q. rw (h x y p q) refl
Ends-bind m f (ends k out_of_fuel n h) rest = absurd (n refl)

pub Ends-require : (b : Bool) → Ends (λ g f. require b)
Ends-require true = Ends-ok tt
Ends-require false = Ends-thrown

pub Ends-assert : (b : Bool) → Ends (λ g f. assert b)
Ends-assert true = Ends-ok tt
Ends-assert false = Ends-fault

pub ruleset ending =
    (Ends-ok, Ends-thrown, Ends-fault, Ends-bind, Ends-if, Ends-require, Ends-assert)
