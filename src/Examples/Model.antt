-- ===== src/Examples/Model.antt =====
-- A small model and its translation: P emits on the channel `a`, Q receives on it
-- (src/utot-translate.cc, src/utot-decl.cc).
use uppaal_to_tchecker.Base.{
  arith, Text, codes, same, less, Bool, true, false, none, some, List, [], ◌∷◌, ◌==◌, if◌then◌else◌,
  ◌≡◌, ◌↔◌, refl, In, inl,
}
use uppaal_to_tchecker.Base.Integers.{pos}
use uppaal_to_tchecker.Outcome.{Outcome, ok}
use uppaal_to_tchecker.Utap.{
  Symbol, Expr, Ty, Utap, base, range, empty, constant, identifier, sync_on, sync_bang, sync_que,
  int, channel,
}
use uppaal_to_tchecker.Tchecker.{Vector, Outputter, Line, intvar, comment}
use uppaal_to_tchecker.Decl.{Variable, translate_declarations}
use uppaal_to_tchecker.Decl.Lines.{IsBounded, Holds}
use uppaal_to_tchecker.Decl.Bounds.{translate_declarations-IsBounded}
use uppaal_to_tchecker.Model.{Edge, Template, Process, System}
use uppaal_to_tchecker.Sync.Plan.{Request, vector_of, pair_vector}
use uppaal_to_tchecker.Sync.Lines.{vectors}
use uppaal_to_tchecker.Sync.Meaning.{Expected}
use uppaal_to_tchecker.Edges.{Emission, translate_edges}
use uppaal_to_tchecker.Edges.Recorded.{Labelled}
use uppaal_to_tchecker.Edges.Kept.{translate_edges-recorded}
use uppaal_to_tchecker.Processes.{Progress, no_events, translate_parts, translate_model}
use uppaal_to_tchecker.Processes.Asserted.{IsAsserted, translate_model-IsAsserted}
use uppaal_to_tchecker.Sync.{GlobalEvents}
use uppaal_to_tchecker.Sync.Written.{NoStuck}
use uppaal_to_tchecker.Base.Maps.{find, contains}
use uppaal_to_tchecker.Tchecker.Scope.{IsScoped}
use uppaal_to_tchecker.Processes.Declared.{translate_model-IsScoped}
use uppaal_to_tchecker.Processes.Written.{translate_model-written}

abbrev pub zero_to_five : Ty
zero_to_five = range (base int) (constant (pos 0)) (constant (pos 5))

abbrev symbol_of : Expr → Symbol
symbol_of (identifier s) = s
symbol_of (sync_on d (identifier s)) = s
symbol_of _ = 0

abbrev type_of_symbol : Symbol → Ty
type_of_symbol s = if s == 0 then base channel else if s == 4 then zero_to_five else base int

abbrev name_of : Symbol → Text
name_of s =
    if s == 0
    then codes "a"
    else if s == 1
    then codes "l"
    else if s == 2
    then codes "P"
    else if s == 3
    then codes "Q"
    else codes "x"

abbrev is_range_type : Ty → Bool
is_range_type (range t a b) = true
is_range_type _ = false

abbrev range_of_type : Ty → Expr × Expr
range_of_type (range t a b) = (a, b)
range_of_type _ = (empty, empty)

-- Two integer constants or identifiers.
abbrev pub library : Utap
library = record {
  type_of = λ e. base int;
  get_symbol = symbol_of;
  symbol_type = type_of_symbol;
  symbol_name = name_of;
  has_parent = λ s. false;
  variable = λ s. some empty;
  equal = λ a b. false;
  is_integer = λ t. true;
  is_boolean = λ t. false;
  is_scalar = λ t. false;
  is_constant = λ t. false;
  is_range = is_range_type;
  is_array = λ t. false;
  is_clock = λ t. false;
  is = λ t k. false;
  get_array_size = λ t. t;
  strip_array = λ t. t;
  to_string = λ t. [];
  show = λ e. [];
  get_range = range_of_type;
}

abbrev pub loop : Expr → Edge
loop e = record {
  src = 1;
  dst = 1;
  select = [];
  guard = constant (pos 1);
  sync = e;
  assign = constant (pos 1);
  actname = [];
}

abbrev pub one_location : Expr → Template
one_location e = record {
  variables = [];
  states = record { uid = 1; invariant = empty } ∷ [];
  init = 1;
  edges = loop e ∷ [];
}

abbrev pub instance_of : Symbol → Expr → Process
instance_of p e = record {
  uid = p;
  parameters = [];
  mapping = [];
  unbound = 0;
  templ = one_location e;
}

abbrev variable : Symbol → Expr → Variable
variable s e = record { uid = s; expr = e }

-- The first variable is the library's own, which is skipped.
abbrev globals : List Variable
globals = variable 5 empty ∷ variable 0 empty ∷ variable 4 (constant (pos 3)) ∷ []

abbrev pub emit_and_receive : System
emit_and_receive = record {
  variables = globals;
  iodecl = [];
  processes =
      instance_of 2 (sync_on sync_bang (identifier 0))
      ∷ instance_of 3 (sync_on sync_que (identifier 0))
      ∷ [];
}

abbrev pub start : Outputter
start = record { out = []; tau_generated = false }

abbrev declarations : List Line
declarations =
    comment (codes "a:")
    ∷ comment (codes "global event: a")
    ∷ comment (codes "x:")
    ∷ intvar (pos 0) (pos 5) (pos 3) (codes "x") (pos 1)
    ∷ []

declared :
    translate_declarations library none 5 [] globals start
    ≡ ok (record { out = declarations; tau_generated = false })
unfolding translate_declarations same
declared = refl

translate_declarations-IsBounded_example :
    Holds IsBounded (record { out = declarations; tau_generated = false })
translate_declarations-IsBounded_example =
    translate_declarations-IsBounded library none 5 [] globals start
      (record { out = declarations; tau_generated = false }) tt declared

abbrev output_of : Outcome Outputter → Outputter
output_of (ok o) = o
output_of _ = start

abbrev pub output : Outputter
output = output_of (translate_model library 5 5 (codes "S") emit_and_receive start)

pub translated : translate_model library 5 5 (codes "S") emit_and_receive start ≡ ok output
unfolding translate_model same less
translated = refl

output_vectors : vectors output.out ≡ pair_vector (codes "a") (codes "P") (codes "Q") ∷ []
unfolding translate_model same less
output_vectors = refl

translate_model-written_example :
    (st : Progress) × (translate_parts library 5 5 (codes "S") emit_and_receive start ≡ ok st)
    × ((v : Vector)
        → In v (vectors output.out) ↔ ((r : Request) × Expected st.events r × (v ≡ vector_of r)))
translate_model-written_example =
    translate_model-written library 5 5 (codes "S") emit_and_receive start output tt translated

abbrev pub emission : Emission
emission = record { local_events = []; events = no_events; tckout = start }

abbrev after_of : Outcome Emission → Emission
after_of (ok em) = em
after_of _ = emission

abbrev pub emit_edge : Edge
emit_edge = loop (sync_on sync_bang (identifier 0))

abbrev after : Emission
after = after_of (translate_edges library 5 5 (codes "P" ∷ []) (emit_edge ∷ []) [] emission)

edges_translated :
    translate_edges library 5 5 (codes "P" ∷ []) (emit_edge ∷ []) [] emission ≡ ok after
unfolding translate_edges same less
edges_translated = refl

translate_edges-recorded_example :
    Labelled library [] 5 5 (codes "P" ∷ []) (sync_on sync_bang (identifier 0)) sync_bang after
translate_edges-recorded_example =
    translate_edges-recorded library 5 5 (codes "P" ∷ []) (emit_edge ∷ []) [] emission after
      emit_edge sync_bang (identifier 0) (inl refl) refl refl edges_translated

abbrev known_events : GlobalEvents
known_events = record {
  emitters = (codes "a", codes "P" ∷ []) ∷ [];
  receivers = (codes "a", codes "Q" ∷ []) ∷ [];
  csp = [];
  allowed_csp = [];
  labels = codes "a_emit" ∷ codes "a_recv" ∷ [];
  brodcasts = [];
}

abbrev lines_of : Outcome Progress → Outputter
lines_of (ok st) = st.tckout
lines_of _ = start

abbrev pub parts : Progress
parts = record {
  events = known_events;
  tckout = lines_of (translate_parts library 5 5 (codes "S") emit_and_receive start);
}

pub parts_translated : translate_parts library 5 5 (codes "S") emit_and_receive start ≡ ok parts
unfolding translate_parts same less
parts_translated = refl

pub known-NoStuck : NoStuck known_events
unfolding find contains same
known-NoStuck = record {
  emitters = λ s ps h. ground arith;
  receivers = λ s ps h. ground arith;
  csp = λ s ps h. ground arith;
}

translate_model-IsAsserted_example : Holds IsAsserted output
translate_model-IsAsserted_example =
    translate_model-IsAsserted library 5 5 (codes "S") emit_and_receive start output parts tt
      parts_translated known-NoStuck translated

translate_model-IsScoped_example : IsScoped [] output.out
translate_model-IsScoped_example =
    translate_model-IsScoped library 5 5 (codes "S") emit_and_receive start output tt refl
      translated
