-- ===== src/Driver/Malformed.antt =====
-- Command lines that parse_options does not take (src/utot.cpp).
use uppaal_to_tchecker.Base.{
  ◌<◌, Text, Bool, true, false, Option, none, some, List, [], ◌∷◌, length, ◌≡◌, ◌⊎◌, inl, inr, refl,
  arith, In,
}
use uppaal_to_tchecker.Outcome.{Outcome, ok, thrown, fault, out_of_fuel, ◌>>=◌, require}
use uppaal_to_tchecker.Driver.{
  Flag, so_debug, so_erase, so_help, so_verbose, so_version, so_xml, so_ta, so_xta, so_sysname,
  missing_argument, unknown, Options, set_option, set_options, set_filenames, parse_options,
  or_thrown,
}

-- Options and arguments that are not a command line of the program.
pub data Malformed (flags : List Flag) (args : List Text) : Type 0 where
  no_argument : In missing_argument flags → Malformed flags args
  no_option : In unknown flags → Malformed flags args
  too_many : 2 < length args → Malformed flags args

pub bind-thrown :
    {A B : Type 0} (m : Outcome A) (k : A → Outcome B)
    → (m >>= k) ≡ thrown
    → (m ≡ thrown) ⊎ ((a : A) × (m ≡ ok a) × (k a ≡ thrown))
bind-thrown (ok a) k e = inr (a, refl, e)
bind-thrown thrown k e = inl refl
bind-thrown fault k e = cc
bind-thrown out_of_fuel k e = cc

-- A run that returns or throws.
abbrev pub Answers : {A : Type 0} → Outcome A → Type 0
Answers {A = A} m = (m ≡ thrown) ⊎ ((a : A) × (m ≡ ok a))

pub bind-stops :
    {A B : Type 0} (m : Outcome A) (k : A → Outcome B)
    → Answers m
    → ((a : A) → m ≡ ok a → k a ≡ thrown)
    → (m >>= k) ≡ thrown
bind-stops m k (inl e) h = rw e refl
bind-stops m k (inr (a, e)) h = rw e (h a e)

pub require-Answers : (b : Bool) → Answers (require b)
require-Answers true = inr (tt, refl)
require-Answers false = inl refl

pub or_thrown-Answers : {A : Type 0} (o : Option A) → Answers (or_thrown o)
or_thrown-Answers none = inl refl
or_thrown-Answers (some a) = inr (a, refl)

pub require-thrown : (b : Bool) → require b ≡ thrown → b ≡ false
require-thrown true e = cc
require-thrown false e = refl

pub or_thrown-thrown : {A : Type 0} (o : Option A) → or_thrown o ≡ thrown → o ≡ none
or_thrown-thrown none e = refl
or_thrown-thrown (some a) e = cc

pub or_thrown-ok : {A : Type 0} (o : Option A) (a : A) → or_thrown o ≡ ok a → o ≡ some a
or_thrown-ok none a e = cc
or_thrown-ok (some b) a e = ground arith

-- A flag that set_option does not know, or what it sets.
flag-cases :
    (c : Flag) (o : Options)
    → (missing_argument ≡ c) ⊎ ((unknown ≡ c) ⊎ ((o' : Options) × (set_option c o ≡ ok o')))
unfolding set_option
flag-cases missing_argument o = inl refl
flag-cases unknown o = inr (inl refl)
flag-cases so_debug o = inr (inr (_, refl))
flag-cases so_erase o = inr (inr (_, refl))
flag-cases so_help o = inr (inr (_, refl))
flag-cases so_verbose o = inr (inr (_, refl))
flag-cases so_version o = inr (inr (_, refl))
flag-cases so_xml o = inr (inr (_, refl))
flag-cases so_ta o = inr (inr (_, refl))
flag-cases so_xta o = inr (inr (_, refl))
flag-cases (so_sysname s) o = inr (inr (_, refl))

stopped-by : (c x : Flag) (o : Options) → x ≡ c → set_option x o ≡ thrown → set_option c o ≡ thrown
stopped-by c x o q e = rw (← q) e

set_option-Answers : (c : Flag) (o : Options) → Answers (set_option c o)
unfolding set_option
set_option-Answers c o = elim (flag-cases c o) [
  | inl q ↦ inl (stopped-by c missing_argument o q refl)
  | inr (inl q) ↦ inl (stopped-by c unknown o q refl)
  | inr (inr r) ↦ inr r
]

set_options-Answers : (cs : List Flag) (o : Options) → Answers (set_options cs o)
unfolding set_options
set_options-Answers [] o = inr (o, refl)
set_options-Answers (c ∷ cs) o = elim (set_option-Answers c o) [
  | inl e ↦ inl (rw e refl)
  | inr (o', e) ↦ rw e (set_options-Answers cs o')
]

set_options-thrown :
    (cs : List Flag) (o : Options)
    → set_options cs o ≡ thrown
    → In missing_argument cs ⊎ In unknown cs
unfolding set_options
set_options-thrown [] o e = cc
set_options-thrown (c ∷ cs) o e = elim (flag-cases c o) [
  | inl q ↦ inl (inl q)
  | inr (inl q) ↦ inr (inl q)
  | inr (inr (o', q)) ↦ elim (set_options-thrown cs o' (rw q at e)) [
    | inl h ↦ inl (inr h)
    | inr h ↦ inr (inr h)
  ]
]

set_options-stops :
    (x : Flag)
    → ((o : Options) → set_option x o ≡ thrown)
    → (cs : List Flag) (o : Options) → In x cs
    → set_options cs o ≡ thrown
unfolding set_options
set_options-stops x h [] o k = absurd k
set_options-stops x h (c ∷ cs) o (inl q) = rw (stopped-by c x o q (h o)) refl
set_options-stops x h (c ∷ cs) o (inr k) =
    bind-stops (set_option c o) _ (set_option-Answers c o) λ o' e. set_options-stops x h cs o' k

set_filenames-thrown :
    (args : List Text) (o : Options) → set_filenames args o ≡ thrown → 2 < length args
unfolding set_filenames
set_filenames-thrown [] o e = cc
set_filenames-thrown (i ∷ []) o e = cc
set_filenames-thrown (i ∷ out ∷ []) o e = cc
set_filenames-thrown (i ∷ out ∷ x ∷ args) o e = omega arith

set_filenames-stops :
    (args : List Text) (o : Options) → 2 < length args → set_filenames args o ≡ thrown
unfolding set_filenames
set_filenames-stops [] o k = absurd (omega arith)
set_filenames-stops (i ∷ []) o k = absurd (omega arith)
set_filenames-stops (i ∷ out ∷ []) o k = absurd (omega arith)
set_filenames-stops (i ∷ out ∷ x ∷ args) o k = refl

set_filenames-Answers : (args : List Text) (o : Options) → Answers (set_filenames args o)
unfolding set_filenames
set_filenames-Answers [] o = inr (_, refl)
set_filenames-Answers (i ∷ []) o = inr (_, refl)
set_filenames-Answers (i ∷ out ∷ []) o = inr (_, refl)
set_filenames-Answers (i ∷ out ∷ x ∷ args) o = inl refl

pub parse_options-thrown :
    (flags : List Flag) (args : List Text) (o : Options)
    → parse_options flags args o ≡ thrown
    → Malformed flags args
unfolding parse_options
parse_options-thrown flags args o e = elim (bind-thrown (set_options flags o) _ e) [
  | inl q ↦ elim (set_options-thrown flags o q) [ inl h ↦ no_argument h | inr h ↦ no_option h ]
  | inr (o', p, q) ↦ too_many (set_filenames-thrown args o' q)
]

pub parse_options-stops :
    (flags : List Flag) (args : List Text) (o : Options)
    → Malformed flags args
    → parse_options flags args o ≡ thrown
unfolding parse_options set_option
parse_options-stops flags args o (no_argument h) =
    rw (set_options-stops missing_argument (λ o. refl) flags o h) refl
parse_options-stops flags args o (no_option h) =
    rw (set_options-stops unknown (λ o. refl) flags o h) refl
parse_options-stops flags args o (too_many k) =
    bind-stops (set_options flags o) _ (set_options-Answers flags o)
      λ o' e. set_filenames-stops args o' k

pub parse_options-Answers :
    (flags : List Flag) (args : List Text) (o : Options) → Answers (parse_options flags args o)
unfolding parse_options
parse_options-Answers flags args o = elim (set_options-Answers flags o) [
  | inl e ↦ inl (rw e refl)
  | inr (o', e) ↦ rw e (set_filenames-Answers args o')
]
