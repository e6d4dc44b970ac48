-- ===== src/Driver.antt =====
-- The program utot: options, the input language, the name of the system and main (src/utot.cpp).
pub mod Language
pub mod Name
pub mod Files
pub mod Declared
pub mod Usage
pub mod Ends
pub mod Malformed
pub mod Refusals
pub mod Failures
pub mod Warnings
pub mod Console
use uppaal_to_tchecker.Base.{
  ℕ, zero, suc, Text, codes, same, Bool, true, false, not, ◌&&◌, ◌||◌, Option, none, some, List, [],
  ◌∷◌, ◌++◌, ltb, leb, ◌==◌, if◌then◌else◌, map,
}
use uppaal_to_tchecker.Outcome.{Outcome, ok, thrown, fault, out_of_fuel, ◌>>=◌, ◌>>◌, require}
use uppaal_to_tchecker.Utap.{Utap}
use uppaal_to_tchecker.Model.{System}
use uppaal_to_tchecker.Tchecker.{Outputter, comment, put}
use uppaal_to_tchecker.Processes.{translate_model}

-- file_format_t
pub data FileFormat : Type 0 where
  format_none format_plain format_xml : FileFormat

-- input_language_t
pub data InputLanguage : Type 0 where
  lang_none lang_ta lang_xta : InputLanguage

-- What getopt_long returns; `missing_argument` is ':' and `unknown` is '?'.
pub data Flag : Type 0 where
  so_debug so_erase so_help so_verbose so_version so_xml so_ta so_xta : Flag
  so_sysname : Text → Flag
  missing_argument unknown : Flag

-- The static variables that the options set.
pub record Options : Type 0 where
  pub debug : Bool
  pub verbose_level : ℕ
  pub show_help : Bool
  pub show_version : Bool
  pub enforced_format : FileFormat
  pub enforced_language : InputLanguage
  pub erase_output : Bool
  pub input_filename : Option Text
  pub output_filename : Option Text
  pub sysname : Option Text

abbrev pub initial_options : Options
initial_options = record {
  debug = false;
  verbose_level = 0;
  show_help = false;
  show_version = false;
  enforced_format = format_none;
  enforced_language = lang_none;
  erase_output = false;
  input_filename = none;
  output_filename = none;
  sysname = none;
}

-- The switch of s_parse_options.
unfoldable pub set_option : Flag → Options → Outcome Options
set_option so_debug o = ok (record o { debug = true })
set_option so_erase o = ok (record o { erase_output = true })
set_option so_verbose o = ok (record o { verbose_level = suc o.verbose_level })
set_option so_help o = ok (record o { show_help = true })
set_option so_ta o = ok (record o { enforced_language = lang_ta; enforced_format = format_plain })
set_option so_xta o = ok (record o { enforced_language = lang_xta; enforced_format = format_plain })
set_option so_xml o = ok (record o { enforced_format = format_xml; enforced_language = lang_xta })
set_option so_version o = ok (record o { show_version = true })
set_option (so_sysname s) o = ok (record o { sysname = some s })
set_option missing_argument o = thrown
set_option unknown o = thrown

-- The loop of s_parse_options.
unfoldable pub set_options : List Flag → Options → Outcome Options
unfolding set_option
set_options [] o = ok o
set_options (c ∷ cs) o = do o' ← set_option c o; set_options cs o'

-- The arguments that are left.
unfoldable pub set_filenames : List Text → Options → Outcome Options
set_filenames [] o = ok o
set_filenames (i ∷ []) o = ok (record o { input_filename = some i })
set_filenames (i ∷ out ∷ []) o =
    ok (record o { input_filename = some i; output_filename = some out })
set_filenames (i ∷ out ∷ x ∷ args) o = thrown

-- s_parse_options, over what getopt_long returns and the arguments that it leaves
unfoldable pub parse_options : List Flag → List Text → Options → Outcome Options
unfolding set_options set_filenames
parse_options flags args o = do o' ← set_options flags o; set_filenames args o'

-- strrchr (s, '.'): the text from the last dot on
unfoldable pub strrchr : Text → Option Text
strrchr [] = none
strrchr (c ∷ s) = or_else (strrchr s) (if c == b'.' then some (c ∷ s) else none)
  where
    or_else : Option Text → Option Text → Option Text
    or_else none o = o
    or_else (some t) o = some t

abbrev pub of_extension : Text → InputLanguage × FileFormat → InputLanguage × FileFormat
of_extension ext otherwise =
    if same ext (codes ".ta")
    then (lang_ta, format_plain)
    else if same ext (codes ".xta")
    then (lang_xta, format_plain)
    else if same ext (codes ".xml")
    then (lang_xta, format_xml)
    else otherwise

abbrev pub of_filename : Option Text → InputLanguage × FileFormat → InputLanguage × FileFormat
of_filename none otherwise = otherwise
of_filename (some ext) otherwise = of_extension ext otherwise

abbrev pub enforce_language : InputLanguage → InputLanguage → InputLanguage
enforce_language lang_none result = result
enforce_language enforced result = enforced

abbrev pub enforce_format : FileFormat → FileFormat → FileFormat
enforce_format format_none format = format
enforce_format enforced format = enforced

-- s_compute_input_language, of the file that the options name: the language and the format
unfoldable pub compute_input_language : Options → Option Text → InputLanguage × FileFormat
unfolding strrchr
compute_input_language o none = (o.enforced_language, o.enforced_format)
compute_input_language o (some filename) =
    let r = of_filename (strrchr filename) (o.enforced_language, o.enforced_format) in
    (enforce_language o.enforced_language r.0, enforce_format o.enforced_format r.1)

-- isalnum (c), in the C locale
abbrev pub is_alnum : ℕ → Bool
is_alnum c =
    (leb b'0' c && leb c b'9') || ((leb b'A' c && leb c b'Z') || (leb b'a' c && leb c b'z'))

abbrev pub is_id_char : ℕ → Bool
is_id_char c = is_alnum c || (c == b'_' || c == b'.')

-- A char is taken to be unsigned, where isalnum is defined for every byte.
unfoldable pub id_char : ℕ → ℕ
id_char c = if is_id_char c then c else b'_'

abbrev pub id_of : Option Text → Text
id_of none = codes "System"
id_of (some []) = codes "System"
id_of (some (c ∷ s)) = map id_char (c ∷ s)

-- s_get_system_id
unfoldable pub get_system_id : Options → Text
unfolding id_char
get_system_id o = id_of (elim o.sysname [ none ↦ o.input_filename | some s ↦ some s ])

-- The files, and the library's parser: `none` where it reports errors.
pub record World : Type 0 where
  pub exists : Text → Bool
  pub can_write : Text → Bool
  pub read : Option Text → Option Text
  pub parse : InputLanguage → FileFormat → Text → Option (Utap × System)

-- What main comes to: a message on the standard output, a translation written to a file or to the
-- standard output, or EXIT_FAILURE.
pub data Exit : Type 0 where
  usage version failure : Exit
  translated : Option Text → Outputter → Exit

abbrev pub or_thrown {ℓ} : {A : Type ℓ} → Option A → Outcome A
or_thrown none = thrown
or_thrown (some a) = ok a

-- s_open_output_file
unfoldable pub open_output_file : World → Options → Option Text → Outcome (Unit {0})
open_output_file w o none = ok tt
open_output_file w o (some filename) = do
  require (not (w.exists filename && not o.erase_output))
  require (w.can_write filename)

abbrev pub note_source : Options → Outputter → Outputter
note_source o out =
    if ltb 0 o.verbose_level
    then put out (
        comment (
          codes "from file: "
          ++ (elim o.input_filename [ none ↦ codes "stdin" | some name ↦ name ])))
    else out

-- The comments that main writes first.
unfoldable pub preamble : Options → Outputter
unfolding put
preamble o =
    let start : Outputter = record { out = []; tau_generated = false } in
    put
      (note_source o (
        put (put start (comment []))
          (comment (codes "This file has been generated automatically with uppaal-to-tchecker"))))
      (comment [])

abbrev pub is_no_language : InputLanguage → Bool
is_no_language lang_none = true
is_no_language _ = false

abbrev pub plain_if_none : FileFormat → FileFormat
plain_if_none format_none = format_plain
plain_if_none fmt = fmt

-- The branch of main that translates.
unfoldable pub translate_file : World → ℕ → ℕ → Options → Outcome Exit
unfolding compute_input_language open_output_file preamble get_system_id translate_model
translate_file w g f o = do
  let r = compute_input_language o o.input_filename
  require (not (is_no_language r.0))
  input ← or_thrown (w.read o.input_filename)
  (u, tas) ← or_thrown (w.parse r.0 (plain_if_none r.1) input)
  open_output_file w o o.output_filename
  out ← translate_model u g f (get_system_id o) tas (preamble o)
  ok (translated o.output_filename out)

-- The body of the try block.
unfoldable pub run : World → ℕ → ℕ → List Flag → List Text → Outcome Exit
unfolding parse_options translate_file
run w g f flags args = do
  o ← parse_options flags args initial_options
  (if o.show_help then ok usage else if o.show_version then ok version else translate_file w g f o)

-- catch (const utot::exception &e)
abbrev pub catch_exception : Outcome Exit → Outcome Exit
catch_exception thrown = ok failure
catch_exception r = r

unfoldable pub main : World → ℕ → ℕ → List Flag → List Text → Outcome Exit
unfolding run
main w g f flags args = catch_exception (run w g f flags args)
