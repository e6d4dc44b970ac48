-- ===== src/Edges/Selections.antt =====
-- The choices of values for the selections of an edge (src/utot-translate.cc).
use uppaal_to_tchecker.Base.{ℕ, some, List, [], ◌∷◌, ◌≡◌, sym, ap, ◌∙◌}
use uppaal_to_tchecker.Outcome.{Outcome, ok, ◌>>=◌, bind-ok, ok-injective}
use uppaal_to_tchecker.Utap.{Symbol, Utap, constant}
use uppaal_to_tchecker.Prefix.{Prefix}
use uppaal_to_tchecker.Expr.{Mapping}
use uppaal_to_tchecker.Model.{Edge, assign_symbol}
use uppaal_to_tchecker.Edges.{Emission, enumeration, translate_edge, translate_edge_with_select}
use uppaal_to_tchecker.Outcome.Passes.{run_all, run_all-one}
use uppaal_to_tchecker.Edges.Rounds.{
  collect, each_value-run_all, collect-listed, IsRange, enumeration-IsRange,
}
use uppaal_to_tchecker.Decl.Ranges.{Runs}
use uppaal_to_tchecker.Base.Integers.{ℤ}

-- The mappings that the selections extend `m` to: the first selection varies slowest, and the range of
-- each may name those before it.
unfoldable pub choices : Utap → ℕ → List Symbol → Mapping → Outcome (List Mapping)
unfolding collect
choices u g [] m = ok (m ∷ [])
choices u g (s ∷ ss) m = do
  (low, n) ← enumeration u (some m) g s
  collect (λ i. choices u g ss (assign_symbol s (constant i) m)) low 0 n

-- What the loops over the values of the selections list: the first selection is the outermost loop, and
-- the range of each may name those before it.
abbrev pub Chosen : Utap → ℕ → List Symbol → Mapping → List Mapping → Type 0
Chosen u g [] m ms = m ∷ [] ≡ ms
Chosen u g (s ∷ ss) m ms =
    (low : ℤ) × (high : ℤ) × IsRange u (some m) g s low high
    × Runs (λ i xs. Chosen u g ss (assign_symbol s (constant i) m) xs) high low ms

choices-Chosen :
    (u : Utap) (g : ℕ) (ss : List Symbol) (m : Mapping) (ms : List Mapping)
    → Chosen u g ss m ms
    → choices u g ss m ≡ ok ms
unfolding choices
choices-Chosen u g [] m ms h = ap ok h
choices-Chosen u g (s ∷ ss) m ms (low, high, range, runs) =
    rw (enumeration-IsRange u (some m) g s low high range) (
      collect-listed (λ i. choices u g ss (assign_symbol s (constant i) m))
        (λ i xs. Chosen u g ss (assign_symbol s (constant i) m) xs)
        (λ i xs h. choices-Chosen u g ss (assign_symbol s (constant i) m) xs h) low high ms runs)

module _ (u : Utap) (g f : ℕ) (ctx : Prefix) (e : Edge) where
  pub translate_edge_with_select-run_all :
      (ss : List Symbol) (m : Mapping) (ms : List Mapping)
      → choices u g ss m ≡ ok ms
      → (em : Emission)
      → translate_edge_with_select u g f ctx e ss m em ≡ run_all (translate_edge u g f ctx e) ms em
  unfolding choices translate_edge_with_select
  translate_edge_with_select-run_all [] m ms q em =
      sym (run_all-one (translate_edge u g f ctx e) m em)
      ∙ ap (λ l. run_all (translate_edge u g f ctx e) l em) (ok-injective (m ∷ []) ms q)
  translate_edge_with_select-run_all (s ∷ ss) m ms q em =
      let (r, range, rest) = bind-ok (enumeration u (some m) g s) _ ms q in
      rw range (
        each_value-run_all (translate_edge u g f ctx e)
          (λ i. choices u g ss (assign_symbol s (constant i) m))
          (λ i em'. translate_edge_with_select u g f ctx e ss (assign_symbol s (constant i) m) em')
          (λ i xs k em'.
            translate_edge_with_select-run_all ss (assign_symbol s (constant i) m) xs k em')
          r.0 0 r.1 ms rest em)

  -- The translation of an edge with selections is one edge for each list of values, one after the
  -- other, with these values. The lists are those of nested loops, a loop for each selection from the lower
  -- to the upper bound of its range, both included, the first selection the outermost. The conditions:
  -- the type of each selection is a range whose bounds have values, the upper one below the largest int.
  pub translate_edge_with_select-Chosen :
      (ss : List Symbol) (m : Mapping) (ms : List Mapping)
      → Chosen u g ss m ms
      → (em : Emission)
      → translate_edge_with_select u g f ctx e ss m em ≡ run_all (translate_edge u g f ctx e) ms em
  translate_edge_with_select-Chosen ss m ms h em =
      translate_edge_with_select-run_all ss m ms (choices-Chosen u g ss m ms h) em
