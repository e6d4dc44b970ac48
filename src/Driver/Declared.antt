-- ===== src/Driver/Declared.antt =====
-- What main writes declares what it uses (src/utot.cpp).
use uppaal_to_tchecker.Base.{ℕ, Text, false, List, [], ltb, Option, ◌≡◌, refl, Bool-cases, inl, inr}
use uppaal_to_tchecker.Outcome.{ok}
use uppaal_to_tchecker.Tchecker.{Outputter}
use uppaal_to_tchecker.Tchecker.Scope.{IsScoped}
use uppaal_to_tchecker.Processes.Declared.{translate_model-IsScoped}
use uppaal_to_tchecker.Driver.{Flag, Options, World, translated, get_system_id, preamble, main}
use uppaal_to_tchecker.Driver.Files.{main-Translated}

-- The comments that main starts with use nothing.
preamble-IsScoped :
    (o : Options) → IsScoped [] (preamble o).out × ((preamble o).tau_generated ≡ false)
unfolding preamble
preamble-IsScoped o = elim (Bool-cases (ltb 0 o.verbose_level)) [
  | inl verbose ↦ rw verbose ((tt, (tt, (tt, (tt, tt)))), refl)
  | inr quiet ↦ rw quiet ((tt, (tt, (tt, tt))), refl)
]

-- Where main ends with a translation, its output declares every process and every event before the
-- first location, edge or vector that uses it.
pub main-IsScoped :
    (w : World) (g f : ℕ) (flags : List Flag) (args : List Text) (dest : Option Text)
    (out : Outputter)
    → main w g f flags args ≡ ok (translated dest out)
    → IsScoped [] out.out
main-IsScoped w g f flags args dest out q =
    let t = main-Translated w g f flags args dest out q in
    let (scoped, fresh) = preamble-IsScoped t.options in
    translate_model-IsScoped t.library g f (get_system_id t.options) t.system (preamble t.options)
      out scoped fresh t.is_translated
