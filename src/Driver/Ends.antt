-- ===== src/Driver/Ends.antt =====
-- Runs of main that end (src/utot.cpp).
use uppaal_to_tchecker.Base.{ℕ, Text, not, Option, none, some, List, [], ◌∷◌, ◌≡◌, ◌≢◌, refl}
use uppaal_to_tchecker.Outcome.{
  Outcome, ok, thrown, fault, out_of_fuel, ◌>>=◌, Settles, Settles-ne, Settles-bind, settling,
}
use uppaal_to_tchecker.Outcome.Ends.{
  Ends, ends, Ends-at, Ends-ok, Ends-thrown, Ends-bind, Ends-if, Ends-require, ending,
}
use uppaal_to_tchecker.Utap.{Utap, Expr}
use uppaal_to_tchecker.Model.{System}
use uppaal_to_tchecker.Processes.Ends.{IsRankedModel, translate_model-Ends}
use uppaal_to_tchecker.Driver.{
  Flag, so_debug, so_erase, so_help, so_verbose, so_version, so_xml, so_ta, so_xta, so_sysname,
  missing_argument, unknown, is_no_language, plain_if_none, compute_input_language, get_system_id,
  preamble, Options, initial_options, World, Exit, FileFormat, InputLanguage, set_option,
  set_options, set_filenames, parse_options, open_output_file, or_thrown, translate_file, run,
  catch_exception, main,
}

-- Every model that the parser returns is ranked.
pub record IsRankedWorld (w : World) : Type 0 where
  pub rank : Utap → System → Expr → ℕ
  pub parsed :
      (lang : InputLanguage) (fmt : FileFormat) (input : Text) (u : Utap) (s : System)
      → w.parse lang fmt input ≡ some (u, s)
      → IsRankedModel u (rank u s) s

-- A run that does not use fuel and does not run out of it.
Ends-constant : {A : Type 0} (r : Outcome A) → r ≢ out_of_fuel → Ends (λ g f. r)
Ends-constant r n = ends 0 r n (λ g f h k. refl)

open_output_file-Ends :
    (w : World) (o : Options) (dest : Option Text) → Ends (λ g f. open_output_file w o dest)
unfolding open_output_file
open_output_file-Ends w o none = search ending
open_output_file-Ends w o (some name) = search ending

Ends-or_thrown :
    {A B : Type 0} (o : Option A) (f : ℕ → ℕ → A → Outcome B)
    → ((a : A) → o ≡ some a → Ends (λ g h. f g h a))
    → Ends (λ g h. or_thrown o >>= f g h)
Ends-or_thrown none f h = Ends-thrown
Ends-or_thrown (some a) f h = h a refl

set_option-Settles : (c : Flag) (o : Options) → Settles (set_option c o)
unfolding set_option
set_option-Settles so_debug o = search settling
set_option-Settles so_erase o = search settling
set_option-Settles so_help o = search settling
set_option-Settles so_verbose o = search settling
set_option-Settles so_version o = search settling
set_option-Settles so_xml o = search settling
set_option-Settles so_ta o = search settling
set_option-Settles so_xta o = search settling
set_option-Settles (so_sysname s) o = search settling
set_option-Settles missing_argument o = search settling
set_option-Settles unknown o = search settling

set_options-Settles : (cs : List Flag) (o : Options) → Settles (set_options cs o)
unfolding set_options
set_options-Settles [] o = search settling
set_options-Settles (c ∷ cs) o =
    Settles-bind (set_option c o) _ (set_option-Settles c o) (λ o' e. set_options-Settles cs o')

set_filenames-Settles : (args : List Text) (o : Options) → Settles (set_filenames args o)
unfolding set_filenames
set_filenames-Settles [] o = search settling
set_filenames-Settles (i ∷ []) o = search settling
set_filenames-Settles (i ∷ out ∷ []) o = search settling
set_filenames-Settles (i ∷ out ∷ x ∷ args) o = search settling

pub parse_options-Settles :
    (flags : List Flag) (args : List Text) (o : Options) → Settles (parse_options flags args o)
unfolding parse_options
parse_options-Settles flags args o =
    Settles-bind (set_options flags o) _ (set_options-Settles flags o)
      λ o' e. set_filenames-Settles args o'

module _ (w : World) (h : IsRankedWorld w) where
  translate_file-Ends : (o : Options) → Ends (λ g f. translate_file w g f o)
  unfolding translate_file
  translate_file-Ends o =
      let r = compute_input_language o o.input_filename in
      let fmt = plain_if_none r.1 in
      Ends-bind _ _ (Ends-require (not (is_no_language r.0))) λ x.
        Ends-or_thrown (w.read o.input_filename) _ λ input is_read.
          Ends-or_thrown (w.parse r.0 fmt input) _ λ p is_parsed.
            let ranked = h.parsed r.0 fmt input p.0 p.1 is_parsed in
            Ends-bind _ _ (open_output_file-Ends w o o.output_filename) λ y.
              Ends-bind _ _
                (translate_model-Ends p.0 (h.rank p.0 p.1) p.1 ranked (get_system_id o)
                  (preamble o))
                λ out. Ends-ok _

  run-Ends : (flags : List Flag) (args : List Text) → Ends (λ g f. run w g f flags args)
  unfolding run
  run-Ends flags args =
      let options =
        Ends-constant _ (Settles-ne (parse_options-Settles flags args initial_options)) in
      Ends-bind _ _ options λ o.
        Ends-if o.show_help _ _ (Ends-ok _)
          (Ends-if o.show_version _ _ (Ends-ok _) (translate_file-Ends o))

Ends-catch_exception : (m : ℕ → ℕ → Outcome Exit) → Ends m → Ends (λ g f. catch_exception (m g f))
Ends-catch_exception m (ends k r n h) =
    ends k (catch_exception r) (caught r n) λ g f p q. rw (h g f p q) refl
  where
    caught : (r : Outcome Exit) → r ≢ out_of_fuel → catch_exception r ≢ out_of_fuel
    caught (ok a) n = λ e. cc
    caught thrown n = λ e. cc
    caught fault n = λ e. cc
    caught out_of_fuel n = n

-- Where every model that the parser returns is ranked, main ends on all options and arguments: with
-- enough fuel it shows a text, translates, fails or comes to a fault.
pub main-ends :
    (w : World) (flags : List Flag) (args : List Text)
    → IsRankedWorld w
    → (k : ℕ) × (main w k k flags args ≢ out_of_fuel)
unfolding main
main-ends w flags args h = Ends-at (Ends-catch_exception _ (run-Ends w h flags args))
