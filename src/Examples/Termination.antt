-- ===== src/Examples/Termination.antt =====
-- The translation of the small model ends (src/utot-translate.cc).
use mathlib.Core.Path.{subst}
use uppaal_to_tchecker.Base.{ℕ, ◌<◌, codes, ◌≡◌, ◌≢◌, arith}
use uppaal_to_tchecker.Outcome.{ok, out_of_fuel}
use uppaal_to_tchecker.Utap.{Expr, identifier, list, Utap}
use uppaal_to_tchecker.Expr.{array_elements, strip_labels}
use uppaal_to_tchecker.Expr.Ends.{IsRanked}
use uppaal_to_tchecker.Processes.{translate_model}
use uppaal_to_tchecker.Processes.Ends.{IsRankedModel, translate_model-ends}
use uppaal_to_tchecker.Examples.Evaluation.{rank, child-rank, at_index-rank}
use uppaal_to_tchecker.Model.{System}
use uppaal_to_tchecker.Driver.{main}
use uppaal_to_tchecker.Driver.Ends.{IsRankedWorld, main-ends}
use uppaal_to_tchecker.Examples.Program.{world, flags, args}
use uppaal_to_tchecker.Examples.Model.{library, emit_and_receive, start}

no_elements : (a es e : Expr) (n : ℕ) → array_elements library a ≡ ok es → rank e < n
unfolding array_elements
no_elements (identifier s) es e n h = cc
no_elements _ es e n h = cc

ranked : IsRanked library rank
unfolding rank strip_labels
ranked = record {
  unary_lt = λ k a. omega arith;
  left_lt = λ k a b. omega arith;
  right_lt = λ k a b. omega arith;
  test_lt = λ c a b. omega arith;
  then_lt = λ c a b. omega arith;
  else_lt = λ c a b. omega arith;
  base_lt = λ a i. omega arith;
  index_lt = λ a i. omega arith;
  label_lt = λ d e. omega arith;
  low_lt = λ a i. omega arith;
  high_lt = λ a i. omega arith;
  element_lt = λ a i es e n h k. no_elements a es e _ h;
  item_lt = λ es n e h. child-rank (list es) e n h;
  chosen_lt = λ es a e n h k. omega (arith, child-rank (list es) a 0 h, at_index-rank a e n k);
  initial_lt = λ s e h. cc;
  constant_lt = λ s n. omega arith;
}

ranked_model : IsRankedModel library rank emit_and_receive
ranked_model = record { constants = ranked; parameters = (tt, (tt, tt)) }

translate_model-ends_example :
    (k : ℕ) × (translate_model library k k (codes "S") emit_and_receive start ≢ out_of_fuel)
translate_model-ends_example =
    translate_model-ends library rank emit_and_receive (codes "S") start ranked_model

ranked_world : IsRankedWorld world
ranked_world = record {
  rank = λ u s. rank;
  parsed = λ lang fmt input u s e.
      let q : (library, emit_and_receive) ≡ (u, s) = cc in
      subst (λ (p : Utap × System). IsRankedModel p.0 rank p.1) q ranked_model;
}

main-ends_example : (k : ℕ) × (main world k k flags args ≢ out_of_fuel)
main-ends_example = main-ends world flags args ranked_world
