-- ===== src/Translate/Constants.antt =====
-- Constants: eval_integer_constant beside the run-time value (src/utot-expr.cc).
use uppaal_to_tchecker.Base.{ℕ, zero, suc, Bool, true, false, ◌≡◌, refl, if◌then◌else◌}
use uppaal_to_tchecker.Outcome.{Outcome, ok, thrown, fault, out_of_fuel, ◌>>=◌, ◌>>◌, require}
use uppaal_to_tchecker.Utap.{
  Symbol, Expr, Unary, Binary, Utap, empty, identifier, unary, binary, inline_if, array, list,
  logical_not, logical_and,
}
use uppaal_to_tchecker.Expr.{Instance, eval_integer_constant}
use uppaal_to_tchecker.Translate.Values.{State, meaning}

-- Two runs that do not return different results.
pub data Agree {A : Type 0} (m r : Outcome A) : Type 0 where
  agree : ((c v : A) → m ≡ ok c → r ≡ ok v → c ≡ v) → Agree m r

module _ {A : Type 0} where
  pub Agree-at : {m r : Outcome A} → Agree m r → (c v : A) → m ≡ ok c → r ≡ ok v → c ≡ v
  Agree-at (agree h) = h

  pub Agree-refl : (m : Outcome A) → Agree m m
  Agree-refl m = agree (λ c v e q. cc)

  pub Agree-thrown : (r : Outcome A) → Agree thrown r
  Agree-thrown r = agree (λ c v e q. cc)

  pub Agree-fault : (r : Outcome A) → Agree fault r
  Agree-fault r = agree (λ c v e q. cc)

  pub Agree-out_of_fuel : (r : Outcome A) → Agree out_of_fuel r
  Agree-out_of_fuel r = agree (λ c v e q. cc)

  pub Agree-starved : (m : Outcome A) → Agree m out_of_fuel
  Agree-starved m = agree (λ c v e q. cc)

  pub Agree-refused : (m : Outcome A) → Agree m thrown
  Agree-refused m = agree (λ c v e q. cc)

  pub Agree-bind :
      {B : Type 0} (m r : Outcome B) (f g : B → Outcome A)
      → Agree m r
      → ((b : B) → Agree (f b) (g b))
      → Agree (m >>= f) (r >>= g)
  Agree-bind (ok a) (ok b) f g (agree h) k = let q : a ≡ b = h a b refl refl in rw q (k b)
  Agree-bind (ok a) thrown f g h k = agree (λ c v e q. cc)
  Agree-bind (ok a) fault f g h k = agree (λ c v e q. cc)
  Agree-bind (ok a) out_of_fuel f g h k = agree (λ c v e q. cc)
  Agree-bind thrown r f g h k = Agree-thrown (r >>= g)
  Agree-bind fault r f g h k = Agree-fault (r >>= g)
  Agree-bind out_of_fuel r f g h k = Agree-out_of_fuel (r >>= g)

  pub Agree-if :
      (b : Bool) (m m' r r' : Outcome A)
      → Agree m r
      → Agree m' r'
      → Agree (if b then m else m') (if b then r else r')
  Agree-if true m m' r r' h k = h
  Agree-if false m m' r r' h k = k

  pub Agree-require : (b : Bool) (m r : Outcome A) → Agree m r → Agree (require b >> m) r
  Agree-require true m r h = h
  Agree-require false m r h = Agree-thrown r

pub ruleset agreeing =
    (Agree-refl, Agree-thrown, Agree-fault, Agree-out_of_fuel, Agree-starved, Agree-bind, Agree-if)

-- The arrays that an expression reads are constant, those in indices too.
abbrev pub ReadsConstants : Utap → Expr → Type 0
ReadsConstants u (unary k a) = ReadsConstants u a
ReadsConstants u (binary k a b) = ReadsConstants u a × ReadsConstants u b
ReadsConstants u (inline_if c a b) = ReadsConstants u c × ReadsConstants u a × ReadsConstants u b
ReadsConstants u (array a i) = (u.is_constant (u.type_of a) ≡ true) × ReadsConstants u i
ReadsConstants u _ = Unit {0}

-- A state in which constants have the values of their initialisers.
pub record HoldsConstants (u : Utap) (p : Instance) (σ : State) : Type 0 where
  pub of_symbol :
      (f n : ℕ) (s : Symbol)
      → Agree (eval_integer_constant u p f (identifier s)) (meaning p σ n (identifier s))
  pub of_element :
      (f n : ℕ) (a i : Expr)
      → ReadsConstants u (array a i)
      → Agree (eval_integer_constant u p f (array a i)) (meaning p σ n (array a i))

eval_binary-meaning :
    (u : Utap) (p : Instance) (σ : State) (f n : ℕ) (k : Binary) (a b : Expr)
    → Agree (eval_integer_constant u p f a) (meaning p σ n a)
    → Agree (eval_integer_constant u p f b) (meaning p σ n b)
    → Agree (eval_integer_constant u p (suc f) (binary k a b)) (meaning p σ (suc n) (binary k a b))
unfolding eval_integer_constant meaning
eval_binary-meaning u p σ f n logical_and a b h h' =
    search (agreeing, Agree-require, h, h') depth 14
eval_binary-meaning u p σ f n _ a b h h' = search (agreeing, Agree-require, h, h') depth 14

eval_unary-meaning :
    (u : Utap) (p : Instance) (σ : State) (f n : ℕ) (k : Unary) (a : Expr)
    → Agree (eval_integer_constant u p f a) (meaning p σ n a)
    → Agree (eval_integer_constant u p (suc f) (unary k a)) (meaning p σ (suc n) (unary k a))
unfolding eval_integer_constant meaning
eval_unary-meaning u p σ f n logical_not a h = search (agreeing, Agree-require, h) depth 14
eval_unary-meaning u p σ f n _ a h = search (agreeing, Agree-require, h) depth 14

-- What evaluates as a constant has that value at run time, where it has one.
pub eval-meaning :
    (u : Utap) (p : Instance) (σ : State)
    → HoldsConstants u p σ
    → (f n : ℕ) (e : Expr) → ReadsConstants u e
    → Agree (eval_integer_constant u p f e) (meaning p σ n e)
unfolding eval_integer_constant meaning
eval-meaning u p σ h zero n e r = Agree-out_of_fuel (meaning p σ n e)
eval-meaning u p σ h (suc f) zero e r = Agree-starved (eval_integer_constant u p (suc f) e)
eval-meaning u p σ h (suc f) (suc n) (identifier s) r = h.of_symbol (suc f) (suc n) s
eval-meaning u p σ h (suc f) (suc n) (array a i) r = h.of_element (suc f) (suc n) a i r
eval-meaning u p σ h (suc f) (suc n) empty r = search agreeing
eval-meaning u p σ h (suc f) (suc n) (binary k a b) (r, r') =
    eval_binary-meaning u p σ f n k a b (eval-meaning u p σ h f n a r)
      (eval-meaning u p σ h f n b r')
eval-meaning u p σ h (suc f) (suc n) (unary k a) r =
    eval_unary-meaning u p σ f n k a (eval-meaning u p σ h f n a r)
eval-meaning u p σ h (suc f) (suc n) (inline_if c a b) (r, r', r'') =
    let on_test = eval-meaning u p σ h f n c r in
    let on_then = eval-meaning u p σ h f n a r' in
    let on_else = eval-meaning u p σ h f n b r'' in
    search (agreeing, Agree-require, on_test, on_then, on_else) depth 14
eval-meaning u p σ h (suc f) (suc n) (list es) r =
    Agree-refused (eval_integer_constant u p (suc f) (list es))
eval-meaning u p σ h (suc f) (suc n) _ r = search (agreeing, Agree-require) depth 14
