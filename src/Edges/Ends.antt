-- ===== src/Edges/Ends.antt =====
-- The translation of edges where constants have a rank (src/utot-translate.cc).
use uppaal_to_tchecker.Base.{ℕ, zero, suc, some, List, [], ◌∷◌}
use uppaal_to_tchecker.Base.Integers.{ℤ}
use uppaal_to_tchecker.Outcome.{Outcome}
use uppaal_to_tchecker.Outcome.Ends.{Ends, ending}
use uppaal_to_tchecker.Utap.{Symbol, Expr, Utap, constant, sync_on}
use uppaal_to_tchecker.Prefix.{Prefix}
use uppaal_to_tchecker.Expr.{Instance, Mapping}
use uppaal_to_tchecker.Expr.Ends.{
  IsRanked, IsUnder, Below, IsUnder-Below, assign_symbol-IsUnder, eval-Ends,
}
use uppaal_to_tchecker.Translate.{translate_expression}
use uppaal_to_tchecker.Translate.Ends.{translate_expression-Ends, translate_assignment-Ends}
use uppaal_to_tchecker.Model.{Edge, assign_symbol}
use uppaal_to_tchecker.Edges.{
  Emission, get_sync, build_edge_label, edge_event, translate_edge, each_value, enumeration,
  translate_edge_with_select, translate_edges,
}

pub each_value-Ends :
    {S : Type 0} (body : ℕ → ℕ → ℤ → S → Outcome S)
    → ((i : ℤ) (s : S) → Ends (λ g f. body g f i s))
    → (low : ℤ) (k n : ℕ) (s : S) → Ends (λ g f. each_value (body g f) low k n s)
unfolding each_value
each_value-Ends body rounds low k zero s = search ending
each_value-Ends body rounds low k (suc n) s =
    let rest = each_value-Ends body rounds low (suc k) n in search (ending, rounds, rest) depth 8

pub Ends-get_sync : (e : Expr) → Ends (λ g f. get_sync e)
unfolding get_sync
Ends-get_sync (sync_on d e) = search ending
Ends-get_sync _ = search ending

module _ (u : Utap) (rank : Expr → ℕ) (h : IsRanked u rank) where
  pub enumeration-Ends :
      (p : Instance) → Below rank p → (s : Symbol) → Ends (λ g f. enumeration u p g s)
  unfolding enumeration
  enumeration-Ends p b s = let evals = eval-Ends u rank h p b in search (ending, evals) depth 12

  module _ (ctx : Prefix) where
    expressions :
        (m : Mapping)
        → IsUnder rank m
        → (c : Prefix) (e : Expr) → Ends (λ g f. translate_expression u (some m) g c f e)
    expressions m k c e = translate_expression-Ends u (some m) rank h (IsUnder-Below rank m k) c e

    build_edge_label-Ends :
        (m : Mapping)
        → IsUnder rank m
        → (e : Expr) (em : Emission) → Ends (λ g f. build_edge_label u m g f ctx e em)
    unfolding build_edge_label
    build_edge_label-Ends m k e em =
        let x = expressions m k in search (ending, x, Ends-get_sync) depth 10

    edge_event-Ends :
        (m : Mapping)
        → IsUnder rank m
        → (e : Expr) (em : Emission) → Ends (λ g f. edge_event u m g f ctx e em)
    unfolding edge_event
    edge_event-Ends m k e em =
        let label = build_edge_label-Ends m k in search (ending, label) depth 8

    translate_edge-Ends :
        (e : Edge) (m : Mapping)
        → IsUnder rank m
        → (em : Emission) → Ends (λ g f. translate_edge u g f ctx e m em)
    unfolding translate_edge
    translate_edge-Ends e m k em =
        let event = edge_event-Ends m k in
        let x = expressions m k ctx in
        let y = translate_assignment-Ends u (some m) rank h (IsUnder-Below rank m k) ctx in
        search (ending, event, x, y) depth 12

    translate_edge_with_select-Ends :
        (e : Edge) (ss : List Symbol) (m : Mapping)
        → IsUnder rank m
        → (em : Emission) → Ends (λ g f. translate_edge_with_select u g f ctx e ss m em)
    unfolding translate_edge_with_select
    translate_edge_with_select-Ends e [] m k em = translate_edge-Ends e m k em
    translate_edge_with_select-Ends e (s ∷ ss) m k em =
        let range = enumeration-Ends (some m) (IsUnder-Below rank m k) s in
        let rounds =
          each_value-Ends
            (λ g f i r.
              translate_edge_with_select u g f ctx e ss (assign_symbol s (constant i) m) r)
            (λ i r.
              translate_edge_with_select-Ends e ss (assign_symbol s (constant i) m)
                (assign_symbol-IsUnder rank s (constant i) m (h.constant_lt s i) k) r) in
        search (ending, range, rounds) depth 8

    pub translate_edges-Ends :
        (es : List Edge) (m : Mapping)
        → IsUnder rank m
        → (em : Emission) → Ends (λ g f. translate_edges u g f ctx es m em)
    unfolding translate_edges
    translate_edges-Ends [] m k em = search ending
    translate_edges-Ends (e ∷ es) m k em =
        let first = translate_edge_with_select-Ends e e.select m k in
        let rest = translate_edges-Ends es m k in search (ending, first, rest) depth 8
