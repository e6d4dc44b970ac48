-- ===== src/Driver/Files.antt =====
-- What main writes, and where (src/utot.cpp).
use uppaal_to_tchecker.Base.{
  ℕ, Text, false, not, ◌&&◌, Option, none, some, List, if◌then◌else◌, ◌≡◌, sym, ap, ◌∙◌, arith,
  Bool-cases, inl, inr,
}
use uppaal_to_tchecker.Outcome.{
  Outcome, ok, thrown, fault, out_of_fuel, require, require-true, bind-ok,
}
use uppaal_to_tchecker.Utap.{Utap}
use uppaal_to_tchecker.Model.{System}
use uppaal_to_tchecker.Tchecker.{Outputter}
use uppaal_to_tchecker.Processes.{translate_model}
use uppaal_to_tchecker.Driver.{
  Flag, Options, initial_options, World, Exit, usage, version, translated, is_no_language,
  plain_if_none, compute_input_language, parse_options, get_system_id, preamble, open_output_file,
  or_thrown, translate_file, run, catch_exception, main,
}

-- What a run of main that translated did: it read and parsed the input that the options name, and the
-- output is that of translate_model after the preamble; a file that it wrote was not there, or the
-- option erase was given.
pub record Translated (w : World) (g f : ℕ) (flags : List Flag) (args : List Text)
    (dest : Option Text) (out : Outputter) : Type 0 where
  pub options : Options
  pub input : Text
  pub library : Utap
  pub system : System
  pub are_parsed : parse_options flags args initial_options ≡ ok options
  pub is_read : w.read options.input_filename ≡ some input
  pub is_parsed :
      w.parse
        (compute_input_language options options.input_filename).0
        (plain_if_none (compute_input_language options options.input_filename).1)
        input
      ≡ some (library, system)
  pub destination : dest ≡ options.output_filename
  pub is_translated :
      translate_model library g f (get_system_id options) system (preamble options) ≡ ok out
  pub spares :
      (name : Text) → dest ≡ some name → (w.exists name && not options.erase_output) ≡ false

opened :
    (w : World) (o : Options) (dest : Option Text) (x : Unit {0}) (name : Text)
    → open_output_file w o dest ≡ ok x
    → dest ≡ some name
    → (w.exists name && not o.erase_output) ≡ false
unfolding open_output_file
opened w o none x name q e = cc
opened w o (some filename) x name q e =
    let (y, first, rest) =
      bind-ok (require (not (w.exists filename && not o.erase_output))) _ x q in
    let free = require-true (not (w.exists filename && not o.erase_output)) y first in
    let same_name : filename ≡ name = ground arith in rw (← same_name) (ground arith)

returned : {A : Type 0} (o : Option A) (a : A) → or_thrown o ≡ ok a → o ≡ some a
returned none a e = cc
returned (some b) a e = ground arith

module _ (w : World) (g f : ℕ) (flags : List Flag) (args : List Text) (dest : Option Text)
    (out : Outputter) where
  abbrev Done : Outcome Exit → Type 0
  Done r = r ≡ ok (translated dest out)

  of_file :
      (o : Options)
      → parse_options flags args initial_options ≡ ok o
      → Done (translate_file w g f o)
      → Translated w g f flags args dest out
  unfolding translate_file
  of_file o p q =
      let r = compute_input_language o o.input_filename in
      let (x, known, q1) = bind-ok (require (not (is_no_language r.0))) _ _ q in
      let (input, is_read, q2) = bind-ok (or_thrown (w.read o.input_filename)) _ _ q1 in
      let (parsed, is_parsed, q3) =
        bind-ok (or_thrown (w.parse r.0 (plain_if_none r.1) input)) _ _ q2 in
      let (y, is_open, q4) = bind-ok (open_output_file w o o.output_filename) _ _ q3 in
      let (out', is_translated, q5) =
        bind-ok (translate_model parsed.0 g f (get_system_id o) parsed.1 (preamble o)) _ _ q4 in
      let same_dest : o.output_filename ≡ dest = ground arith in
      let same_out : out' ≡ out = ground arith in
      record {
        options = o;
        input = input;
        library = parsed.0;
        system = parsed.1;
        are_parsed = p;
        is_read = returned (w.read o.input_filename) input is_read;
        is_parsed = returned (w.parse r.0 (plain_if_none r.1) input) parsed is_parsed;
        destination = sym same_dest;
        is_translated = is_translated ∙ ap ok same_out;
        spares = λ name e. opened w o o.output_filename y name is_open (same_dest ∙ e);
      }

  of_options :
      (o : Options)
      → Done (
          if o.show_help
          then ok usage
          else if o.show_version
          then ok version
          else translate_file w g f o)
      → Done (translate_file w g f o)
  of_options o q = elim (Bool-cases o.show_help) [
    | inl help ↦ absurd (ground arith)
    | inr no_help ↦ elim (Bool-cases o.show_version) [
      | inl shows ↦ absurd (ground arith)
      | inr no_version ↦ ground arith
    ]
  ]

  of_run : Done (run w g f flags args) → Translated w g f flags args dest out
  unfolding run
  of_run q =
      let (o, p, rest) = bind-ok (parse_options flags args initial_options) _ _ q in
      of_file o p (of_options o rest)

  uncaught : (r : Outcome Exit) → Done (catch_exception r) → Done r
  uncaught (ok e) q = q
  uncaught thrown q = absurd (ground arith)
  uncaught fault q = cc
  uncaught out_of_fuel q = cc

-- If main ends with a translation, it is that of the input that the options name, under the name that
-- they give, after the preamble; and it was written to the output file that they name, which did not
-- exist unless the option erase was given.
pub main-Translated :
    (w : World) (g f : ℕ) (flags : List Flag) (args : List Text) (dest : Option Text)
    (out : Outputter)
    → main w g f flags args ≡ ok (translated dest out)
    → Translated w g f flags args dest out
unfolding main
main-Translated w g f flags args dest out q =
    of_run w g f flags args dest out (uncaught w g f flags args dest out (run w g f flags args) q)
