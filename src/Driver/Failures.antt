-- ===== src/Driver/Failures.antt =====
-- When main fails (src/utot.cpp).
use uppaal_to_tchecker.Base.{
  ℕ, Text, false, Option, List, if◌then◌else◌, ◌≡◌, ◌≢◌, ◌↔◌, inl, inr, refl, arith, Bool-cases,
}
use uppaal_to_tchecker.Outcome.{
  Outcome, ok, thrown, fault, out_of_fuel, Ensures, Ensures-at, ensuring,
}
use uppaal_to_tchecker.Tchecker.{Outputter}
use uppaal_to_tchecker.Driver.Malformed.{
  Malformed, bind-thrown, parse_options-thrown, parse_options-stops,
}
use uppaal_to_tchecker.Driver.Refusals.{Untranslated, translate_file-thrown, translate_file-stops}
use uppaal_to_tchecker.Driver.{
  Flag, Options, initial_options, World, Exit, usage, version, failure, translated, parse_options,
  translate_file, run, catch_exception, main,
}

-- Why main fails: the command line, or what its options name.
pub data Fails (w : World) (g f : ℕ) (flags : List Flag) (args : List Text) : Type 0 where
  malformed : Malformed flags args → Fails w g f flags args
  untranslated :
      (o : Options)
      → parse_options flags args initial_options ≡ ok o
      → o.show_help ≡ false
      → o.show_version ≡ false
      → Untranslated w g f o
      → Fails w g f flags args

no_usage : failure ≢ usage
no_usage e = cc

no_version : failure ≢ version
no_version e = cc

no_translation : (dest : Option Text) (out : Outputter) → failure ≢ translated dest out
no_translation dest out e = cc

module _ (w : World) (g f : ℕ) (flags : List Flag) (args : List Text) where
  abbrev after : Options → Outcome Exit
  after o =
      if o.show_help
      then ok usage
      else if o.show_version
      then ok version
      else translate_file w g f o

  after-thrown :
      (o : Options)
      → after o ≡ thrown
      → (o.show_help ≡ false) × ((o.show_version ≡ false) × Untranslated w g f o)
  after-thrown o e = elim (Bool-cases o.show_help) [
    | inl help ↦ absurd (ground arith)
    | inr no_help ↦ elim (Bool-cases o.show_version) [
      | inl shows ↦ absurd (ground arith)
      | inr unasked ↦ (no_help, (unasked, translate_file-thrown w g f o (ground arith)))
    ]
  ]

  run-thrown : run w g f flags args ≡ thrown → Fails w g f flags args
  unfolding run
  run-thrown e = elim (bind-thrown (parse_options flags args initial_options) _ e) [
    | inl q ↦ malformed (parse_options-thrown flags args initial_options q)
    | inr (o, q, e') ↦
        let (no_help, (unasked, why)) = after-thrown o e' in untranslated o q no_help unasked why
  ]

  run-stops : Fails w g f flags args → run w g f flags args ≡ thrown
  unfolding run
  run-stops (malformed h) = rw (parse_options-stops flags args initial_options h) refl
  run-stops (untranslated o q no_help unasked why) =
      rw (q, no_help, unasked) (translate_file-stops w g f o why)

  run-Ensures : Ensures (λ e. failure ≢ e) (run w g f flags args)
  unfolding run translate_file
  run-Ensures = search (ensuring, no_usage, no_version, no_translation) depth 20

  uncaught :
      (r : Outcome Exit)
      → Ensures (λ e. failure ≢ e) r
      → catch_exception r ≡ ok failure
      → r ≡ thrown
  uncaught (ok e) h q = absurd (Ensures-at h e refl (cc))
  uncaught thrown h q = refl
  uncaught fault h q = cc
  uncaught out_of_fuel h q = cc

-- The program fails in these cases and no other: an option is unknown or lacks its argument, or there
-- are more than two arguments; or, without the options help and version, the input language is not
-- known, the input cannot be read or does not parse, the output file exists and the option erase is not
-- given, it cannot be written, or the translation throws.
pub main-Fails :
    (w : World) (g f : ℕ) (flags : List Flag) (args : List Text)
    → main w g f flags args ≡ ok failure ↔ Fails w g f flags args
unfolding main
main-Fails w g f flags args = (
  λ e. run-thrown w g f flags args (uncaught w g f flags args _ (run-Ensures w g f flags args) e),
  λ h. rw (run-stops w g f flags args h) refl,
)
