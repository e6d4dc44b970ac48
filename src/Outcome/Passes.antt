-- ===== src/Outcome/Passes.antt =====
-- One pass of a step over a list, which may fail at each item.
use uppaal_to_tchecker.Base.{List, [], ◌∷◌, ◌++◌, ◌≡◌, refl, sym, ◌∙◌, In, inl, inr}
use uppaal_to_tchecker.Outcome.{
  Outcome, ok, ◌>>=◌, Ensures, Ensures-at, bind_assoc, bind-ok, bind-ok_id, bind-cong, ok-injective,
}

module _ {A S : Type 0} (step : A → S → Outcome S) where
  -- One step for each item, in order.
  unfoldable pub run_all : List A → S → Outcome S
  run_all [] s = ok s
  run_all (x ∷ xs) s = do s' ← step x s; run_all xs s'

  pub run_all-append :
      (xs ys : List A) (s : S) → run_all (xs ++ ys) s ≡ (run_all xs s >>= run_all ys)
  unfolding run_all
  run_all-append [] ys s = refl
  run_all-append (x ∷ xs) ys s =
      bind-cong (step x s) _ _ (λ r. run_all-append xs ys r)
      ∙ sym (bind_assoc (step x s) (run_all xs) (run_all ys))

  pub run_all-one : (x : A) (s : S) → run_all (x ∷ []) s ≡ step x s
  unfolding run_all
  run_all-one x s = bind-ok_id (step x s)

-- A relation that each step keeps from its start to its result.
pub record Kept {A S : Type 0} (step : A → S → Outcome S) (K : S → S → Type 0) : Type 0 where
  pub at_start : (s : S) → K s s
  pub in_turn : (a b c : S) → K a b → K b c → K a c
  pub by_step : (x : A) (s : S) → Ensures (K s) (step x s)

module _ {A S : Type 0} (step : A → S → Outcome S) (K : S → S → Type 0) (k : Kept step K) where
  pub run_all-Kept : (xs : List A) (s r : S) → run_all step xs s ≡ ok r → K s r
  unfolding run_all
  run_all-Kept [] s r q = rw (← ok-injective s r q) (k.at_start s)
  run_all-Kept (x ∷ xs) s r q =
      let (s', here, rest) = bind-ok (step x s) _ r q in
      k.in_turn s s' r (Ensures-at (k.by_step x s) s' here) (run_all-Kept xs s' r rest)

  -- A pass that returns went through the step of each item, and kept the relation from there on.
  pub run_all-visits :
      (xs : List A) (s r : S) (x : A)
      → In x xs
      → run_all step xs s ≡ ok r
      → (before : S) × (after : S) × (step x before ≡ ok after) × K after r
  unfolding run_all
  run_all-visits [] s r x i q = absurd i
  run_all-visits (y ∷ xs) s r x (inl e) q =
      let (s', here, rest) = bind-ok (step y s) _ r q in
      (s, s', rw e here, run_all-Kept xs s' r rest)
  run_all-visits (y ∷ xs) s r x (inr i) q =
      let (s', here, rest) = bind-ok (step y s) _ r q in run_all-visits xs s' r x i rest
