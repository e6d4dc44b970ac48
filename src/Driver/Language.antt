-- ===== src/Driver/Language.antt =====
-- Which input language and format the options and the name of the file give (src/utot.cpp).
use uppaal_to_tchecker.Base.{Text, Option, none, some, List, [], ◌∷◌, ◌≡◌, refl, ap}
use uppaal_to_tchecker.Outcome.{ok, Ensures, Ensures-at, Ensures-ok, Ensures-thrown, Ensures-then}
use uppaal_to_tchecker.Driver.{
  FileFormat, format_none, format_plain, format_xml, InputLanguage, lang_none, lang_ta, lang_xta,
  Flag, so_debug, so_erase, so_help, so_verbose, so_version, so_xml, so_ta, so_xta, so_sysname,
  missing_argument, unknown, Options, initial_options, set_option, set_options, set_filenames,
  parse_options, strrchr, of_filename, compute_input_language,
}

-- What the options ta, xta and xml ask for.
pub data Enforced : Type 0 where
  as_ta as_xta as_xml : Enforced

abbrev pub enforced_by : Flag → Option Enforced → Option Enforced
enforced_by so_ta before = some as_ta
enforced_by so_xta before = some as_xta
enforced_by so_xml before = some as_xml
enforced_by _ before = before

-- The last of the options ta, xta and xml, if there is one.
abbrev pub last_enforced : List Flag → Option Enforced → Option Enforced
last_enforced [] before = before
last_enforced (c ∷ cs) before = last_enforced cs (enforced_by c before)

abbrev pub reads_as : Option Enforced → InputLanguage × FileFormat
reads_as none = (lang_none, format_none)
reads_as (some as_ta) = (lang_ta, format_plain)
reads_as (some as_xta) = (lang_xta, format_plain)
reads_as (some as_xml) = (lang_xta, format_xml)

-- The language and the format to read: what the options ask for, or else what the extension of the file's
-- name does.
abbrev pub chosen : Option Enforced → Option Text → InputLanguage × FileFormat
chosen none none = reads_as none
chosen none (some filename) = of_filename (strrchr filename) (reads_as none)
chosen (some e) filename = reads_as (some e)

abbrev enforced_of : Options → InputLanguage × FileFormat
enforced_of o = (o.enforced_language, o.enforced_format)

abbrev Asks : Option Enforced → Options → Type 0
Asks e o = enforced_of o ≡ reads_as e

set_option-enforced :
    (c : Flag) (o : Options) (e : Option Enforced)
    → Asks e o
    → Ensures (Asks (enforced_by c e)) (set_option c o)
unfolding set_option
set_option-enforced missing_argument o e h = Ensures-thrown
set_option-enforced unknown o e h = Ensures-thrown
set_option-enforced so_debug o e h = Ensures-ok _ h
set_option-enforced so_erase o e h = Ensures-ok _ h
set_option-enforced so_help o e h = Ensures-ok _ h
set_option-enforced so_verbose o e h = Ensures-ok _ h
set_option-enforced so_version o e h = Ensures-ok _ h
set_option-enforced so_xml o e h = Ensures-ok _ refl
set_option-enforced so_ta o e h = Ensures-ok _ refl
set_option-enforced so_xta o e h = Ensures-ok _ refl
set_option-enforced (so_sysname s) o e h = Ensures-ok _ h

set_options-enforced :
    (cs : List Flag) (o : Options) (e : Option Enforced)
    → Asks e o
    → Ensures (Asks (last_enforced cs e)) (set_options cs o)
unfolding set_options
set_options-enforced [] o e h = Ensures-ok o h
set_options-enforced (c ∷ cs) o e h =
    Ensures-then (set_option c o) _ (set_option-enforced c o e h)
      (λ o' k. set_options-enforced cs o' (enforced_by c e) k)

set_filenames-enforced :
    (args : List Text) (o : Options) (e : Option Enforced)
    → Asks e o
    → Ensures (Asks e) (set_filenames args o)
unfolding set_filenames
set_filenames-enforced [] o e h = Ensures-ok o h
set_filenames-enforced (i ∷ []) o e h = Ensures-ok _ h
set_filenames-enforced (i ∷ out ∷ []) o e h = Ensures-ok _ h
set_filenames-enforced (i ∷ out ∷ x ∷ args) o e h = Ensures-thrown

parse_options-enforced :
    (flags : List Flag) (args : List Text)
    → Ensures (Asks (last_enforced flags none)) (parse_options flags args initial_options)
unfolding parse_options
parse_options-enforced flags args =
    Ensures-then (set_options flags initial_options) _
      (set_options-enforced flags initial_options none refl)
      (λ o h. set_filenames-enforced args o (last_enforced flags none) h)

compute-chosen :
    (o : Options) (filename : Option Text) (e : Option Enforced)
    → Asks e o
    → compute_input_language o filename ≡ chosen e filename
unfolding compute_input_language
compute-chosen o none none h = h
compute-chosen o none (some e) h = h
compute-chosen o (some filename) none h = rw (ap (λ r. r.0) h, ap (λ r. r.1) h) refl
compute-chosen o (some filename) (some as_ta) h = rw (ap (λ r. r.0) h, ap (λ r. r.1) h) refl
compute-chosen o (some filename) (some as_xta) h = rw (ap (λ r. r.0) h, ap (λ r. r.1) h) refl
compute-chosen o (some filename) (some as_xml) h = rw (ap (λ r. r.0) h, ap (λ r. r.1) h) refl

-- The language and the format that main reads are those of the last of the options ta, xta and xml,
-- whatever the file's name; with none of them, those of the extension of the name.
pub parse_options-chosen :
    (flags : List Flag) (args : List Text) (o : Options) (filename : Option Text)
    → parse_options flags args initial_options ≡ ok o
    → compute_input_language o filename ≡ chosen (last_enforced flags none) filename
parse_options-chosen flags args o filename q =
    compute-chosen o filename (last_enforced flags none)
      (Ensures-at (parse_options-enforced flags args) o q)
