-- ===== src/Driver/Console.antt =====
-- What a run of main says before it translates (src/utot.cpp).
use uppaal_to_tchecker.Base.{
  ℕ, Text, codes, Bool, none, some, List, ltb, ◌&&◌, if◌then◌else◌, [], ◌∷◌, ◌++◌,
}
use uppaal_to_tchecker.Outcome.{Outcome, ok, ◌>>=◌}
use uppaal_to_tchecker.Messages.{vl_progress, msg, warn}
use uppaal_to_tchecker.Driver.{
  FileFormat, format_none, Options, compute_input_language, plain_if_none,
}
use uppaal_to_tchecker.Driver.Warnings.{lang_string, format_string, language_warnings}

abbrev input_name : Options → Text
input_name o = elim o.input_filename [ none ↦ codes "standard input" | some name ↦ name ]

abbrev plain_warning : ℕ → FileFormat → Text
plain_warning v format_none = warn v (codes "enforcing plain format.\n" ∷ [])
plain_warning v fmt = []

-- Each of the texts as a warning.
unfoldable pub warn_each : ℕ → List Text → Text
unfolding warn
warn_each v [] = []
warn_each v (e ∷ errors) = warn v (e ∷ []) ++ warn_each v errors

-- `if (tas.hasWarnings () && verbose_level > 0)`: the errors of the parser, as warnings
abbrev parser_warnings : ℕ → Bool → List Text → Text
parser_warnings v has_warnings errors = if has_warnings && ltb 0 v then warn_each v errors else []

-- The warnings and the messages of main and of s_read_inputfile, on the standard output, where the
-- parser has these warnings and errors.
unfoldable pub console : Options → Bool → List Text → Outcome Text
unfolding language_warnings compute_input_language warn_each
console o has_warnings errors = do
  let v = o.verbose_level
  warnings ← language_warnings o o.input_filename
  let r = compute_input_language o o.input_filename
  ok (
      warnings
      ++ (plain_warning v r.1
          ++ (msg vl_progress v (codes "reading input from: " ∷ input_name o ∷ codes ".\n" ∷ [])
              ++ (msg vl_progress v (
                    codes "parsing "
                    ∷ lang_string r.0
                    ∷ codes "/"
                    ∷ format_string (plain_if_none r.1)
                    ∷ codes " input.\n"
                    ∷ [])
                  ++ (parser_warnings v has_warnings errors
                      ++ msg vl_progress v
                          (codes "translating model into tchecker file format.\n" ∷ []))))))
