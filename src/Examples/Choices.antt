-- ===== src/Examples/Choices.antt =====
-- A process with a parameter, an edge with a selection and an array, each over [0, 5]
-- (src/utot-translate.cc, src/utot-decl.cc).
use uppaal_to_tchecker.Base.{
  arith, some, ◌++◌, codes, false, none, List, [], ◌∷◌, length, ◌≡◌, refl, In, inl, inr,
}
use uppaal_to_tchecker.Base.Integers.{ℤ, pos, ◌+ℤ◌, ◌-ℤ◌, decimal}
use uppaal_to_tchecker.Outcome.{Outcome, ok}
use uppaal_to_tchecker.Utap.{
  Ty, Utap, identifier, sync_on, sync_bang, constant, empty, base, array_type, bool,
}
use uppaal_to_tchecker.Tchecker.{Outputter}
use uppaal_to_tchecker.Decl.{enumerate_array_elements}
use uppaal_to_tchecker.Decl.Cells.{Cell, cells, declare_at}
use uppaal_to_tchecker.Decl.Listed.{Listed, enumerate_array_elements-Listed}
use uppaal_to_tchecker.Decl.Ranges.{Runs, stop, round}
use uppaal_to_tchecker.Edges.Rounds.{IsRange}
use uppaal_to_tchecker.Decl.CellNames.{cells-append-indices}
use uppaal_to_tchecker.Prefix.{Prefix}
use uppaal_to_tchecker.Expr.{Mapping, eval_integer_constant, compute_range_bounds}
use uppaal_to_tchecker.Model.{Edge, Process, assign_symbol}
use uppaal_to_tchecker.Edges.{enumeration, translate_edge, translate_edge_with_select}
use uppaal_to_tchecker.Outcome.Passes.{run_all}
use uppaal_to_tchecker.Edges.Selections.{Chosen, translate_edge_with_select-Chosen}
use uppaal_to_tchecker.Processes.{
  Progress, parameter, assignment_to_string, no_events, translate_process_rec,
}
use uppaal_to_tchecker.Processes.Instances.{
  instances, translate_at, Instanced, translate_process_rec-Instanced,
}
use uppaal_to_tchecker.Processes.Distinct.{instances-string_of}
use uppaal_to_tchecker.Examples.Model.{library, zero_to_five, one_location, emission, emit_edge}

abbrev list_of {ℓ} : {A : Type ℓ} → Outcome (List A) → List A
list_of (ok xs) = xs
list_of _ = []

abbrev selecting : Edge
selecting = record emit_edge { select = 4 ∷ [] }

-- A loop from 0 to 5.
loop :
    {A : Type 0} (items : ℤ → List A → Type 0) (xs : ℤ → List A)
    → ((i : ℤ) → items i (xs i))
    → Runs items (pos 5) (pos 0) (
        xs (pos 0)
        ++ (xs (pos 1) ++ (xs (pos 2) ++ (xs (pos 3) ++ (xs (pos 4) ++ (xs (pos 5) ++ []))))))
unfolding ◌+ℤ◌
loop items xs each =
    round (omega arith) (each (pos 0))
      (round (omega arith) (each (pos 1))
        (round (omega arith) (each (pos 2))
          (round (omega arith) (each (pos 3))
            (round (omega arith) (each (pos 4))
              (round (omega arith) (each (pos 5)) (stop (omega arith)) refl) refl)
            refl)
          refl)
        refl)
      refl

bounds_of_4 : (m : Mapping) → IsRange library (some m) 5 4 (pos 0) (pos 5)
unfolding eval_integer_constant ◌+ℤ◌
bounds_of_4 m = record { ranges = refl; lowest = refl; highest = refl; no_overflow = omega arith }

abbrev with_4 : ℤ → List Mapping
with_4 i = assign_symbol 4 (constant i) [] ∷ []

abbrev mappings : List Mapping
mappings =
    with_4 (pos 0)
    ++ (with_4 (pos 1)
        ++ (with_4 (pos 2) ++ (with_4 (pos 3) ++ (with_4 (pos 4) ++ (with_4 (pos 5) ++ [])))))

chosen : Chosen library 5 (4 ∷ []) [] mappings
chosen = (pos 0, pos 5, bounds_of_4 [], loop _ with_4 (λ i. refl))

translate_edge_with_select-Chosen_example :
    translate_edge_with_select library 5 5 (codes "P" ∷ []) selecting (4 ∷ []) [] emission
    ≡ run_all (translate_edge library 5 5 (codes "P" ∷ []) selecting) mappings emission
translate_edge_with_select-Chosen_example =
    translate_edge_with_select-Chosen library 5 5 (codes "P" ∷ []) selecting (4 ∷ []) [] mappings
      chosen emission

abbrev parametric : Process
parametric = record {
  uid = 2;
  parameters = 4 ∷ [];
  mapping = [];
  unbound = 1;
  templ = one_location (sync_on sync_bang (identifier 0));
}

abbrev placed : List (Prefix × Mapping)
placed = list_of (instances library 5 parametric 1 (codes "P" ∷ []) [])

enumerated : instances library 5 parametric 1 (codes "P" ∷ []) [] ≡ ok placed
unfolding instances parameter enumeration
enumerated = refl

abbrev nothing_written : Outputter
nothing_written = record { out = []; tau_generated = false }

abbrev progress : Progress
progress = record { events = no_events; tckout = nothing_written }

abbrev placed_at : ℤ → List (Prefix × Mapping)
placed_at i =
    (
      codes "P" ∷ (library.symbol_name 4 ++ (codes "_" ++ decimal i)) ∷ [],
      assign_symbol 4 (constant i) [],
    )
    ∷ []

abbrev all_placed : List (Prefix × Mapping)
all_placed =
    placed_at (pos 0)
    ++ (placed_at (pos 1)
        ++ (placed_at (pos 2)
            ++ (placed_at (pos 3) ++ (placed_at (pos 4) ++ (placed_at (pos 5) ++ [])))))

instanced : Instanced library 5 parametric 1 (codes "P" ∷ []) [] all_placed
instanced = ([], 4, [], refl, refl, pos 0, pos 5, bounds_of_4 [], loop _ placed_at (λ i. refl))

translate_process_rec-Instanced_example :
    translate_process_rec library 5 5 parametric 1 (codes "P" ∷ []) [] progress
    ≡ run_all (translate_at library 5 5 parametric) all_placed progress
translate_process_rec-Instanced_example =
    translate_process_rec-Instanced library 5 5 parametric 1 (codes "P" ∷ []) [] all_placed
      instanced progress

abbrev second : Prefix × Mapping
second = (codes "P" ∷ codes "x_1" ∷ [], (4, constant (pos 1)) ∷ [])

second-In : In second placed
unfolding instances parameter enumeration assignment_to_string assign_symbol
second-In = inr (inl refl)

instances-string_of_example : second ≡ second
instances-string_of_example =
    instances-string_of library 5 parametric 1 (codes "P") [] placed second second enumerated
      second-In second-In refl

-- bool grid[6][6]
abbrev grid : Ty
grid = array_type (array_type (base bool) zero_to_five) zero_to_five

abbrev square : Utap
square = record library { get_array_size = λ t. zero_to_five }

abbrev cell_list : List Cell
cell_list = list_of (cells square none 5 grid [] empty)

all_cells : length cell_list ≡ 36
unfolding cells
all_cells = refl

listed : cells square none 5 grid [] empty ≡ ok cell_list
unfolding cells
listed = refl

abbrev cell_at : ℤ → ℤ → List Cell
cell_at i j = (j ∷ i ∷ [], base bool, empty) ∷ []

abbrev row : ℤ → List Cell
row i =
    cell_at i (pos 0)
    ++ (cell_at i (pos 1)
        ++ (cell_at i (pos 2)
            ++ (cell_at i (pos 3) ++ (cell_at i (pos 4) ++ (cell_at i (pos 5) ++ [])))))

abbrev all_rows : List Cell
all_rows =
    row (pos 0)
    ++ (row (pos 1) ++ (row (pos 2) ++ (row (pos 3) ++ (row (pos 4) ++ (row (pos 5) ++ [])))))

row-Listed :
    (i : ℤ) → Listed square none 5 (array_type (base bool) zero_to_five) (i ∷ []) empty (row i)
unfolding compute_range_bounds ◌+ℤ◌ ◌-ℤ◌
row-Listed i = (
  pos 0,
  pos 5,
  refl,
  refl,
  refl,
  omega arith,
  inl refl,
  loop _ (cell_at i) (λ j. (empty, inl (refl, refl), refl)),
)

grid-Listed : Listed square none 5 grid [] empty all_rows
unfolding compute_range_bounds ◌+ℤ◌ ◌-ℤ◌
grid-Listed = (
  pos 0,
  pos 5,
  refl,
  refl,
  refl,
  omega arith,
  inl refl,
  loop _ row (λ i. (empty, inl (refl, refl), row-Listed i)),
)

enumerate_array_elements-Listed_example :
    enumerate_array_elements square none 5 (codes "grid") grid [] empty nothing_written
    ≡ run_all (declare_at square none 5 (codes "grid")) all_rows nothing_written
enumerate_array_elements-Listed_example =
    enumerate_array_elements-Listed square none 5 (codes "grid") grid [] empty all_rows grid-Listed
      nothing_written

abbrev first_cell : Cell
first_cell = (pos 0 ∷ pos 0 ∷ [], base bool, empty)

first_cell-In : In first_cell cell_list
unfolding cells
first_cell-In = inl refl

cells-append-indices_example : first_cell.0 ≡ first_cell.0
cells-append-indices_example =
    cells-append-indices square none 5 (codes "grid") grid empty cell_list first_cell first_cell
      listed first_cell-In first_cell-In refl
