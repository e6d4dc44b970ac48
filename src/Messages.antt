-- ===== src/Messages.antt =====
-- Messages on the terminal and their levels (src/utot.hh).
use uppaal_to_tchecker.Base.{
  ℕ, zero, suc, ◌-◌, Text, codes, Bool, false, not, List, [], ◌∷◌, ◌++◌, ltb, if◌then◌else◌, ◌≡◌,
  ◌≢◌, refl, arith,
}

abbrev pub vl_warning : ℕ
vl_warning = 0

abbrev pub vl_progress : ℕ
vl_progress = 1

abbrev pub vl_info : ℕ
vl_info = 2

-- level_enabled, with the level of verbosity
unfoldable pub level_enabled : ℕ → ℕ → Bool
level_enabled level verbose_level = ltb level verbose_level

-- print: the texts of the arguments
unfoldable pub print : List Text → Text
print [] = []
print (t ∷ args) = t ++ print args

abbrev spaces : ℕ → Text
spaces zero = []
spaces (suc n) = b' ' ∷ spaces n

-- msg
unfoldable pub msg : ℕ → ℕ → List Text → Text
unfolding level_enabled print
msg level verbose_level args =
    if not (level_enabled level verbose_level)
    then []
    else (if ltb 0 level then spaces (level - 1) else []) ++ print args

-- warn
unfoldable pub warn : ℕ → List Text → Text
unfolding msg
warn verbose_level args = msg vl_warning verbose_level (codes "warning: " ∷ args)

-- What err_ex writes before it throws.
unfoldable pub err_text : List Text → Text
unfolding print
err_text args = codes "error: " ++ print args ++ 10 ∷ []

warned : warn 1 (codes "a" ∷ codes "b" ∷ []) ≡ codes "warning: ab"
unfolding warn
warned = refl

quiet : warn 0 (codes "a" ∷ []) ≡ []
unfolding warn
quiet = refl

-- A warning is shown as soon as there is verbosity.
pub warn-shown : (verbose_level : ℕ) (args : List Text) → warn (suc verbose_level) args ≢ []
unfolding warn
warn-shown v args e = ground arith

-- Nothing is shown without verbosity.
pub msg-quiet : (level : ℕ) (args : List Text) → msg level 0 args ≡ []
unfolding msg
msg-quiet level args = let hidden : ltb level 0 ≡ false = ground arith in rw hidden refl

pub warn-quiet : (args : List Text) → warn 0 args ≡ []
unfolding warn
warn-quiet args = refl
