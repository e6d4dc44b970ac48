-- ===== src/Processes/Instances.antt =====
-- The choices of values for the unbound parameters of a process (src/utot-translate.cc,
-- doc/translation.md).
use uppaal_to_tchecker.Base.{
  ℕ, zero, suc, codes, some, List, [], ◌∷◌, ◌++◌, length, ◌≡◌, refl, sym, ap, ◌∙◌,
}
use uppaal_to_tchecker.Outcome.{Outcome, ok, ◌>>=◌, bind-ok, ok-injective}
use uppaal_to_tchecker.Utap.{Symbol, Utap, constant}
use uppaal_to_tchecker.Prefix.{Prefix}
use uppaal_to_tchecker.Expr.{Mapping}
use uppaal_to_tchecker.Model.{Process, assign_symbol}
use uppaal_to_tchecker.Edges.{enumeration}
use uppaal_to_tchecker.Outcome.Passes.{run_all, run_all-one}
use uppaal_to_tchecker.Edges.Rounds.{
  collect, each_value-run_all, collect-listed, IsRange, enumeration-IsRange,
}
use uppaal_to_tchecker.Decl.Ranges.{Runs}
use uppaal_to_tchecker.Base.Integers.{ℤ, decimal}
use uppaal_to_tchecker.Processes.{
  Progress, parameter, assignment_to_string, translate_instance, translate_process_rec,
}

-- The prefixes and the mappings of the instances, where the last `n` parameters from the first have no
-- value yet: the parameter that comes last varies slowest.
unfoldable pub instances :
    Utap → ℕ → Process → ℕ → Prefix → Mapping → Outcome (List (Prefix × Mapping))
unfolding collect
instances u g p zero ctx m = ok ((ctx, m) ∷ [])
instances u g p (suc n) ctx m = do
  s ← parameter n p.parameters
  (low, count) ← enumeration u (some p.mapping) g s
  collect
      (λ i.
        instances u g p n (ctx ++ assignment_to_string u s i ∷ []) (assign_symbol s (constant i) m))
      low 0 count

-- What the loops over the values of the last `n` parameters from the first list: the parameter that
-- comes last is the outermost loop, and each value is added to the prefix and to the mapping.
abbrev pub Instanced : Utap → ℕ → Process → ℕ → Prefix → Mapping → List (Prefix × Mapping) → Type 0
Instanced u g p zero ctx m xs = (ctx, m) ∷ [] ≡ xs
Instanced u g p (suc n) ctx m xs =
    (before : List Symbol) × (s : Symbol) × (after : List Symbol) × (before ++ (s ∷ after)
      ≡ p.parameters)
    × (length before ≡ n)
    × (low : ℤ) × (high : ℤ) × IsRange u (some p.mapping) g s low high
    × Runs
        (λ i ys.
          Instanced u g p n (ctx ++ (u.symbol_name s ++ (codes "_" ++ decimal i)) ∷ [])
            (assign_symbol s (constant i) m) ys)
        high low xs

parameter-length :
    (before : List Symbol) (s : Symbol) (after : List Symbol)
    → parameter (length before) (before ++ (s ∷ after)) ≡ ok s
unfolding parameter
parameter-length [] s after = refl
parameter-length (b ∷ before) s after = parameter-length before s after

instances-Instanced :
    (u : Utap) (g : ℕ) (p : Process) (n : ℕ) (ctx : Prefix) (m : Mapping)
    (xs : List (Prefix × Mapping))
    → Instanced u g p n ctx m xs
    → instances u g p n ctx m ≡ ok xs
unfolding instances assignment_to_string
instances-Instanced u g p zero ctx m xs h = ap ok h
instances-Instanced u g p (suc n) ctx m xs (before, s, after, all, many, low, high, range, runs) =
    let is_there : parameter n p.parameters ≡ ok s =
      rw (← all, ← many) (parameter-length before s after) in
    rw (is_there, enumeration-IsRange u (some p.mapping) g s low high range)
      (collect-listed
        (λ i.
          instances u g p n (ctx ++ assignment_to_string u s i ∷ [])
            (assign_symbol s (constant i) m))
        (λ i ys.
          Instanced u g p n (ctx ++ (u.symbol_name s ++ (codes "_" ++ decimal i)) ∷ [])
            (assign_symbol s (constant i) m) ys)
        (λ i ys h.
          instances-Instanced u g p n (ctx ++ (u.symbol_name s ++ (codes "_" ++ decimal i)) ∷ [])
            (assign_symbol s (constant i) m) ys h)
        low high xs runs)

abbrev pub translate_at : Utap → ℕ → ℕ → Process → Prefix × Mapping → Progress → Outcome Progress
translate_at u g f p (ctx, m) st = translate_instance u g f p ctx m st

module _ (u : Utap) (g f : ℕ) (p : Process) where
  pub translate_process_rec-run_all :
      (n : ℕ) (ctx : Prefix) (m : Mapping) (xs : List (Prefix × Mapping))
      → instances u g p n ctx m ≡ ok xs
      → (st : Progress)
      → translate_process_rec u g f p n ctx m st ≡ run_all (translate_at u g f p) xs st
  unfolding instances translate_process_rec
  translate_process_rec-run_all zero ctx m xs q st =
      sym (run_all-one (translate_at u g f p) (ctx, m) st)
      ∙ ap (λ l. run_all (translate_at u g f p) l st) (ok-injective ((ctx, m) ∷ []) xs q)
  translate_process_rec-run_all (suc n) ctx m xs q st =
      let (s, is_there, q1) = bind-ok (parameter n p.parameters) _ xs q in
      let (r, range, q2) = bind-ok (enumeration u (some p.mapping) g s) _ xs q1 in
      rw (is_there, range)
        (each_value-run_all (translate_at u g f p)
          (λ i.
            instances u g p n (ctx ++ assignment_to_string u s i ∷ [])
              (assign_symbol s (constant i) m))
          (λ i st'.
            translate_process_rec u g f p n (ctx ++ assignment_to_string u s i ∷ [])
              (assign_symbol s (constant i) m) st')
          (λ i ys k st'.
            translate_process_rec-run_all n (ctx ++ assignment_to_string u s i ∷ [])
              (assign_symbol s (constant i) m) ys k st')
          r.0 0 r.1 xs q2 st)

  -- The translation of a process with unbound parameters is that of one instance for each list of
  -- values, one after the other, with these values, and with name_value for each of them at the end of its
  -- prefix. The lists are those of nested loops, a loop for each unbound parameter from the lower to the
  -- upper bound of its range, both included, the last parameter the outermost. The conditions: the type
  -- of each of these parameters is a range whose bounds have values, the upper one below the largest int.
  pub translate_process_rec-Instanced :
      (n : ℕ) (ctx : Prefix) (m : Mapping) (xs : List (Prefix × Mapping))
      → Instanced u g p n ctx m xs
      → (st : Progress)
      → translate_process_rec u g f p n ctx m st ≡ run_all (translate_at u g f p) xs st
  translate_process_rec-Instanced n ctx m xs h st =
      translate_process_rec-run_all n ctx m xs (instances-Instanced u g p n ctx m xs h) st
