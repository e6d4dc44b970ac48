-- ===== src/Outcome.antt =====
-- Outcomes of code that may throw: utot::translation_exception (src/utot-translate.hh, src/utot.hh).
pub mod Passes
pub mod Ends
use mathlib.Core.Path.{subst}
use uppaal_to_tchecker.Base.{Bool, true, false, ◌≡◌, ◌≢◌, refl, sym, if◌then◌else◌, arith}

-- `thrown`: tr_err. `fault`: an assertion fails, or C++ leaves the behaviour undefined (overflow of
-- an int, division by zero, a null pointer). `out_of_fuel` has no counterpart in the program.
pub data Outcome {ℓ} (A : Type ℓ) : Type ℓ where
  ok : A → Outcome A
  thrown fault out_of_fuel : Outcome A

infixl 5 ◌>>=◌ ◌>>◌
abbrev pub ◌>>=◌ {ℓ κ} : {A : Type ℓ} {B : Type κ} → Outcome A → (A → Outcome B) → Outcome B
ok a >>= f = f a
thrown >>= f = thrown
fault >>= f = fault
out_of_fuel >>= f = out_of_fuel

abbrev pub ◌>>◌ {ℓ} : {B : Type ℓ} → Outcome (Unit {0}) → Outcome B → Outcome B
m >> k = m >>= λ _. k

-- if (! test) tr_err (...)
abbrev pub require : Bool → Outcome (Unit {0})
require true = ok tt
require false = thrown

-- assert (test)
abbrev pub assert : Bool → Outcome (Unit {0})
assert true = ok tt
assert false = fault

-- `r` is what more fuel gives: the same outcome, unless `m` ran out.
infix 4 ◌⊑◌
pub data ◌⊑◌ {ℓ} {A : Type ℓ} (m r : Outcome A) : Type ℓ where
  equal : m ≡ r → m ⊑ r
  starved : m ≡ out_of_fuel → m ⊑ r

pub ⊑-refl {ℓ} : {A : Type ℓ} (m : Outcome A) → m ⊑ m
⊑-refl m = equal refl

pub ⊑-starved {ℓ} : {A : Type ℓ} (r : Outcome A) → out_of_fuel ⊑ r
⊑-starved r = starved refl

pub ⊑-bind {ℓ κ} :
    {A : Type ℓ} {B : Type κ} (m m' : Outcome A) (f f' : A → Outcome B)
    → m ⊑ m'
    → ((a : A) → f a ⊑ f' a)
    → (m >>= f) ⊑ (m' >>= f')
⊑-bind (ok a) m' f f' (equal e) h = rw (← e) (h a)
⊑-bind thrown m' f f' (equal e) h = rw (← e) (⊑-refl thrown)
⊑-bind fault m' f f' (equal e) h = rw (← e) (⊑-refl fault)
⊑-bind out_of_fuel m' f f' (equal e) h = starved refl
⊑-bind m m' f f' (starved e) h = starved (rw e)

pub ⊑-if {ℓ} :
    {A : Type ℓ} (b : Bool) (x x' y y' : Outcome A)
    → x ⊑ x'
    → y ⊑ y'
    → (if b then x else y) ⊑ (if b then x' else y')
⊑-if true x x' y y' h k = h
⊑-if false x x' y y' h k = k

-- An outcome that kept within its fuel stays with more of it.
pub ⊑-keeps {ℓ} : {A : Type ℓ} {m r : Outcome A} → m ⊑ r → m ≢ out_of_fuel → r ≡ m
⊑-keeps (equal e) n = sym e
⊑-keeps (starved e) n = absurd (n e)

pub ruleset refinement = (⊑-refl, ⊑-bind, ⊑-if)

-- A run that ends within its fuel.
pub data Settles {ℓ} {A : Type ℓ} (m : Outcome A) : Type ℓ where
  settles : m ≢ out_of_fuel → Settles m

pub Settles-ne {ℓ} : {A : Type ℓ} {m : Outcome A} → Settles m → m ≢ out_of_fuel
Settles-ne (settles n) = n

pub Settles-ok {ℓ} : {A : Type ℓ} (a : A) → Settles (ok a)
Settles-ok a = settles (cc)

pub Settles-thrown {ℓ} : {A : Type ℓ} → Settles {A = A} thrown
Settles-thrown = settles (cc)

pub Settles-fault {ℓ} : {A : Type ℓ} → Settles {A = A} fault
Settles-fault = settles (cc)

pub Settles-bind {ℓ κ} :
    {A : Type ℓ} {B : Type κ} (m : Outcome A) (f : A → Outcome B)
    → Settles m
    → ((a : A) → m ≡ ok a → Settles (f a))
    → Settles (m >>= f)
Settles-bind (ok a) f h k = k a refl
Settles-bind thrown f h k = Settles-thrown
Settles-bind fault f h k = Settles-fault
Settles-bind out_of_fuel f (settles n) k = absurd (n refl)

pub Settles-if {ℓ} :
    {A : Type ℓ} (b : Bool) (x y : Outcome A) → Settles x → Settles y → Settles (if b then x else y)
Settles-if true x y h k = h
Settles-if false x y h k = k

pub Settles-require : (b : Bool) → Settles (require b)
Settles-require true = Settles-ok tt
Settles-require false = Settles-thrown

pub Settles-assert : (b : Bool) → Settles (assert b)
Settles-assert true = Settles-ok tt
Settles-assert false = Settles-fault

pub ruleset settling = (
  Settles-ok, Settles-thrown, Settles-fault, Settles-bind, Settles-if, Settles-require,
  Settles-assert,
)

-- A run of two parts that returns: the first returned, and the second went on from its result.
pub bind-ok {ℓ κ} :
    {A : Type ℓ} {B : Type κ} (m : Outcome A) (f : A → Outcome B) (b : B)
    → (m >>= f) ≡ ok b
    → (a : A) × (m ≡ ok a) × (f a ≡ ok b)
bind-ok (ok a) f b e = (a, refl, e)
bind-ok thrown f b e = cc
bind-ok fault f b e = cc
bind-ok out_of_fuel f b e = cc

pub bind_assoc {ℓ κ ι} :
    {A : Type ℓ} {B : Type κ} {C : Type ι} (m : Outcome A) (f : A → Outcome B) (g : B → Outcome C)
    → ((m >>= f) >>= g) ≡ (m >>= λ a. f a >>= g)
bind_assoc (ok a) f g = refl
bind_assoc thrown f g = refl
bind_assoc fault f g = refl
bind_assoc out_of_fuel f g = refl

pub bind-ok_id {ℓ} : {A : Type ℓ} (m : Outcome A) → (m >>= λ a. ok a) ≡ m
bind-ok_id (ok a) = refl
bind-ok_id thrown = refl
bind-ok_id fault = refl
bind-ok_id out_of_fuel = refl

pub bind-cong {ℓ κ} :
    {A : Type ℓ} {B : Type κ} (m : Outcome A) (f g : A → Outcome B)
    → ((a : A) → f a ≡ g a)
    → (m >>= f) ≡ (m >>= g)
bind-cong (ok a) f g h = h a
bind-cong thrown f g h = refl
bind-cong fault f g h = refl
bind-cong out_of_fuel f g h = refl

pub ok-injective {ℓ} : {A : Type ℓ} (a b : A) → ok a ≡ ok b → a ≡ b
ok-injective a b e = ground arith

-- Every result of a run that returns has the property.
pub data Ensures {ℓ κ} {A : Type ℓ} (P : A → Type κ) (m : Outcome A) : Type (ℓ ⊔ κ) where
  ensures : ((a : A) → m ≡ ok a → P a) → Ensures P m

module _ {ℓ κ} {A : Type ℓ} {P : A → Type κ} where
  pub Ensures-at : {m : Outcome A} → Ensures P m → (a : A) → m ≡ ok a → P a
  Ensures-at (ensures h) = h

  pub Ensures-ok : (a : A) → P a → Ensures P (ok a)
  Ensures-ok a h = ensures (λ b e. let q : a ≡ b = cc in subst P q h)

  pub Ensures-thrown : Ensures P thrown
  Ensures-thrown = ensures (λ b e. cc)

  pub Ensures-fault : Ensures P fault
  Ensures-fault = ensures (λ b e. cc)

  pub Ensures-out_of_fuel : Ensures P out_of_fuel
  Ensures-out_of_fuel = ensures (λ b e. cc)

  pub Ensures-bind {ℓ'} :
      {B : Type ℓ'} (m : Outcome B) (f : B → Outcome A)
      → ((b : B) → m ≡ ok b → Ensures P (f b))
      → Ensures P (m >>= f)
  Ensures-bind (ok b) f h = h b refl
  Ensures-bind thrown f h = Ensures-thrown
  Ensures-bind fault f h = Ensures-fault
  Ensures-bind out_of_fuel f h = Ensures-out_of_fuel

  pub Ensures-if :
      (b : Bool) (x y : Outcome A) → Ensures P x → Ensures P y → Ensures P (if b then x else y)
  Ensures-if true x y h k = h
  Ensures-if false x y h k = k

-- The second run starts from a result of the first.
pub Ensures-then {ℓ κ ℓ' κ'} :
    {A : Type ℓ} {B : Type ℓ'} {P : A → Type κ} {Q : B → Type κ'} (m : Outcome B)
    (f : B → Outcome A)
    → Ensures Q m
    → ((b : B) → Q b → Ensures P (f b))
    → Ensures P (m >>= f)
Ensures-then m f h k = Ensures-bind m f (λ b e. k b (Ensures-at h b e))

-- A run whose first part never returns does not return.
pub Ensures-never {ℓ κ} :
    {A : Type ℓ} {B : Type κ} (m : Outcome A) (f : A → Outcome B)
    → Ensures (λ a. ⊥) m
    → Ensures (λ b. ⊥) (m >>= f)
Ensures-never m f h = Ensures-then m f h λ a e. absurd e

pub require-true : (b : Bool) (x : Unit {0}) → require b ≡ ok x → b ≡ true
require-true true x h = refl
require-true false x h = cc

pub ruleset ensuring =
    (Ensures-ok, Ensures-thrown, Ensures-fault, Ensures-out_of_fuel, Ensures-bind, Ensures-if)
