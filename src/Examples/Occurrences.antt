-- ===== src/Examples/Occurrences.antt =====
-- The edges of the small model: P emits on `a`, and Q receives on it (src/utot-translate.cc).
use uppaal_to_tchecker.Base.{codes, [], ◌∷◌, ◌≡◌, ◌≢◌, ◌⊎◌, refl, inl, inr, same}
use uppaal_to_tchecker.Base.Maps.{contains}
use uppaal_to_tchecker.Translate.{translate_expression}
use uppaal_to_tchecker.Utap.{
  Expr, empty, constant, binary, bit_and, identifier, sync_on, sync_bang, sync_que,
}
use uppaal_to_tchecker.Base.Integers.{pos}
use uppaal_to_tchecker.Prefix.{string_of}
use uppaal_to_tchecker.Sync.{emit_event, recv_event}
use uppaal_to_tchecker.Sync.Written.{SelfReceiver}
use uppaal_to_tchecker.Outcome.{ok}
use uppaal_to_tchecker.Model.{Edge, Process, System, assign_all}
use uppaal_to_tchecker.Edges.Selections.{choices}
use uppaal_to_tchecker.Processes.{translate_model}
use uppaal_to_tchecker.Processes.Visited.{translate_model-refuses}
use uppaal_to_tchecker.Translate.Refused.{by_kind}
use uppaal_to_tchecker.Processes.Instances.{instances}
use uppaal_to_tchecker.Processes.Recorded.{Occurrence}
use uppaal_to_tchecker.Processes.Covered.{
  TakesPart, translate_model-emits, translate_model-receives,
}
use uppaal_to_tchecker.Examples.Model.{
  library, emit_and_receive, start, output, parts, instance_of, loop, one_location, translated,
  parts_translated, known-NoStuck,
}

no_parameters :
    (instances library 5 (instance_of 2 (sync_on sync_bang (identifier 0))) 0 (codes "P" ∷ []) []
      ≡ ok ((codes "P" ∷ [], []) ∷ []))
    × (instances library 5 (instance_of 3 (sync_on sync_que (identifier 0))) 0 (codes "Q" ∷ []) []
        ≡ ok ((codes "Q" ∷ [], []) ∷ []))
unfolding instances
no_parameters = (refl, refl)

no_selections : choices library 5 [] (assign_all [] []) ≡ ok ([] ∷ [])
unfolding choices assign_all
no_selections = refl

abbrev emitted : Occurrence library 5 emit_and_receive
emitted = record {
  process = instance_of 2 (sync_on sync_bang (identifier 0));
  is_process = inl refl;
  instances_of = (codes "P" ∷ [], []) ∷ [];
  are_instances = no_parameters.0;
  ctx = codes "P" ∷ [];
  mapping = [];
  is_instance = inl refl;
  edge = loop (sync_on sync_bang (identifier 0));
  is_edge = inl refl;
  choices_of = [] ∷ [];
  are_choices = no_selections;
  chosen = [];
  is_choice = inl refl;
}

abbrev received : Occurrence library 5 emit_and_receive
received = record {
  process = instance_of 3 (sync_on sync_que (identifier 0));
  is_process = inr (inl refl);
  instances_of = (codes "Q" ∷ [], []) ∷ [];
  are_instances = no_parameters.1;
  ctx = codes "Q" ∷ [];
  mapping = [];
  is_instance = inl refl;
  edge = loop (sync_on sync_que (identifier 0));
  is_edge = inl refl;
  choices_of = [] ∷ [];
  are_choices = no_selections;
  chosen = [];
  is_choice = inl refl;
}

translate_model-emits_example : TakesPart output (codes "P") (emit_event (codes "a"))
unfolding translate_expression string_of contains same
translate_model-emits_example =
    translate_model-emits library 5 5 (codes "S") emit_and_receive start output parts tt
      parts_translated known-NoStuck translated emitted (identifier 0) (codes "a") refl refl refl

translate_model-receives_example :
    TakesPart output (codes "Q") (recv_event (codes "a"))
    ⊎ SelfReceiver parts.events (codes "a") (codes "Q")
unfolding translate_expression string_of same
translate_model-receives_example =
    translate_model-receives library 5 5 (codes "S") emit_and_receive start output parts tt
      parts_translated known-NoStuck translated received (identifier 0) (codes "a") refl refl

-- x & 1
abbrev bits : Expr
bits = binary bit_and (identifier 4) (constant (pos 1))

abbrev guarded : Edge
guarded = record (loop empty) { guard = bits }

abbrev process_of_bits : Process
process_of_bits = record (instance_of 2 empty) {
  templ = record (one_location empty) { edges = guarded ∷ [] };
}

abbrev system_of_bits : System
system_of_bits = record { variables = []; iodecl = []; processes = process_of_bits ∷ [] }

instances_of_bits :
    instances library 5 process_of_bits 0 (codes "P" ∷ []) [] ≡ ok ((codes "P" ∷ [], []) ∷ [])
unfolding instances
instances_of_bits = refl

abbrev guard_of_bits : Occurrence library 5 system_of_bits
guard_of_bits = record {
  process = process_of_bits;
  is_process = inl refl;
  instances_of = (codes "P" ∷ [], []) ∷ [];
  are_instances = instances_of_bits;
  ctx = codes "P" ∷ [];
  mapping = [];
  is_instance = inl refl;
  edge = guarded;
  is_edge = inl refl;
  choices_of = [] ∷ [];
  are_choices = no_selections;
  chosen = [];
  is_choice = inl refl;
}

translate_model-refuses_example :
    translate_model library 5 5 (codes "S") system_of_bits start ≢ ok start
translate_model-refuses_example =
    translate_model-refuses library 5 5 (codes "S") system_of_bits start start guard_of_bits
      (inl (by_kind refl))
