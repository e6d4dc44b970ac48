-- ===== src/Examples/Program.antt =====
-- A run of utot: `utot --xta --sysname my-model --ta model.xta out.tck` (src/utot.cpp).
use uppaal_to_tchecker.Base.{
  Text, codes, same, less, true, false, none, some, List, [], ◌∷◌, ◌≡◌, ◌≢◌, ◌↔◌, refl, All,
}
use uppaal_to_tchecker.Outcome.{Outcome, ok}
use uppaal_to_tchecker.Tchecker.{Outputter}
use uppaal_to_tchecker.Driver.{
  Flag, so_verbose, lang_none, format_none, strrchr, of_extension, so_ta, so_xta, so_sysname,
  Options, initial_options, parse_options, set_options, compute_input_language, get_system_id,
  World, Exit, failure, translated, main,
}
use uppaal_to_tchecker.Driver.Language.{chosen, last_enforced, parse_options-chosen}
use uppaal_to_tchecker.Messages.{warn}
use uppaal_to_tchecker.Driver.Warnings.{
  language_warnings, language_warnings-ok, language_warnings-silent,
}
use uppaal_to_tchecker.Driver.Name.{IsIdChar, get_system_id-All, get_system_id-same}
use uppaal_to_tchecker.Driver.Files.{Translated, main-Translated}
use uppaal_to_tchecker.Tchecker.Scope.{IsScoped}
use uppaal_to_tchecker.Driver.Declared.{main-IsScoped}
use uppaal_to_tchecker.Driver.Failures.{Fails, main-Fails}
use uppaal_to_tchecker.Examples.Model.{library, emit_and_receive}

abbrev pub flags : List Flag
flags = so_xta ∷ so_sysname (codes "my-model") ∷ so_ta ∷ []

abbrev pub args : List Text
args = codes "model.xta" ∷ codes "out.tck" ∷ []

abbrev options_of : Outcome Options → Options
options_of (ok o) = o
options_of _ = initial_options

abbrev options : Options
options = options_of (parse_options flags args initial_options)

parsed : parse_options flags args initial_options ≡ ok options
unfolding parse_options
parsed = refl

parse_options-chosen_example :
    compute_input_language options (some (codes "model.xta"))
    ≡ chosen (last_enforced flags none) (some (codes "model.xta"))
parse_options-chosen_example =
    parse_options-chosen flags args options (some (codes "model.xta")) parsed

get_system_id-All_example : All IsIdChar (get_system_id options) × (get_system_id options ≢ [])
get_system_id-All_example = get_system_id-All options

named : get_system_id options ≡ codes "my_model"
unfolding parse_options get_system_id
named = refl

abbrev plain_name : Options
plain_name = options_of (set_options (so_sysname (codes "m1") ∷ []) initial_options)

get_system_id-same_example : get_system_id plain_name ≡ codes "m1"
unfolding set_options
get_system_id-same_example = get_system_id-same plain_name 109 (codes "1") refl (refl, (refl, tt))

-- One model, and no file that can be overwritten.
abbrev pub world : World
world = record {
  exists = λ name. false;
  can_write = λ name. true;
  read = λ name. some (codes "process P ...");
  parse = λ lang fmt input. some (library, emit_and_receive);
}

abbrev output_of : Outcome Exit → Outputter
output_of (ok (translated dest o)) = o
output_of _ = record { out = []; tau_generated = false }

abbrev output : Outputter
output = output_of (main world 5 5 flags args)

ran : main world 5 5 flags args ≡ ok (translated (some (codes "out.tck")) output)
unfolding main same less
ran = refl

main-Translated_example : Translated world 5 5 flags args (some (codes "out.tck")) output
main-Translated_example = main-Translated world 5 5 flags args (some (codes "out.tck")) output ran

-- The output file exists, and the option erase is not given.
abbrev occupied_world : World
occupied_world = record world { exists = λ name. same name (codes "out.tck") }

failed : main occupied_world 5 5 flags args ≡ ok failure
unfolding main same less
failed = refl

main-Fails_example :
    main occupied_world 5 5 flags args ≡ ok failure ↔ Fails occupied_world 5 5 flags args
main-Fails_example = main-Fails occupied_world 5 5 flags args

reason : Fails occupied_world 5 5 flags args
reason = main-Fails_example.0 failed

-- `utot --verbose --ta model.xta`
abbrev overriding : Options
overriding = options_of (set_options (so_verbose ∷ so_ta ∷ []) initial_options)

warned :
    language_warnings overriding (some (codes "model.xta"))
    ≡ ok (codes "warning: enforced language 'ta' for a file with extension .xta.\n")
unfolding set_options language_warnings same warn
warned = refl

language_warnings-ok_example :
    (t : Text) × (language_warnings overriding (some (codes "model.xta")) ≡ ok t)
language_warnings-ok_example = language_warnings-ok overriding (some (codes "model.xta"))

-- `utot --verbose --xta model.xta`
abbrev agreeing : Options
agreeing = options_of (set_options (so_verbose ∷ so_xta ∷ []) initial_options)

language_warnings-silent_example :
    compute_input_language agreeing (some (codes "model.xta"))
    ≡ of_extension (codes ".xta") (lang_none, format_none)
unfolding set_options strrchr language_warnings same
language_warnings-silent_example =
    language_warnings-silent agreeing 0 (codes "model.xta") (codes ".xta") refl refl refl

main-IsScoped_example : IsScoped [] output.out
main-IsScoped_example = main-IsScoped world 5 5 flags args (some (codes "out.tck")) output ran
