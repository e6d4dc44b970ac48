-- ===== src/Driver/Warnings.antt =====
-- The warnings on the input language, and what a run that translates says (src/utot.cpp).
use uppaal_to_tchecker.Base.{
  ℕ, suc, Text, codes, same, Bool, true, false, ◌&&◌, ◌||◌, Option, none, some, List, [], ◌∷◌, ◌++◌,
  if◌then◌else◌, ◌≡◌, ◌≢◌, refl, arith, ◌∙◌, Bool-cases, inl, inr,
}
use uppaal_to_tchecker.Outcome.{Outcome, ok, fault, ◌>>=◌, bind-ok, ok-injective}
use uppaal_to_tchecker.Messages.{vl_warning, level_enabled, warn, warn-shown}
use uppaal_to_tchecker.Driver.{
  FileFormat, format_none, format_plain, format_xml, InputLanguage, lang_none, lang_ta, lang_xta,
  Options, strrchr, of_extension, of_filename, enforce_language, enforce_format,
  compute_input_language,
}

-- LANG_STRINGS
abbrev pub lang_string : InputLanguage → Text
lang_string lang_none = codes "unkwown"
lang_string lang_ta = codes "ta"
lang_string lang_xta = codes "xta"

-- FORMAT_STRINGS
abbrev pub format_string : FileFormat → Text
format_string format_none = codes "unkwown"
format_string format_plain = codes "plain"
format_string format_xml = codes "xml"

-- enforced_language != LANG_NONE && enforced_language != result
abbrev pub overrides_language : InputLanguage → InputLanguage → Bool
overrides_language lang_ta lang_ta = false
overrides_language lang_xta lang_xta = false
overrides_language lang_none result = false
overrides_language enforced result = true

-- enforced_format != FORMAT_NONE && enforced_format != format
abbrev pub overrides_format : FileFormat → FileFormat → Bool
overrides_format format_plain format_plain = false
overrides_format format_xml format_xml = false
overrides_format format_none format = false
overrides_format enforced format = true

-- out << extpos, where a null pointer is undefined
abbrev pub printed : Option Text → Outcome Text
printed none = fault
printed (some t) = ok t

abbrev pub is_known_extension : Text → Bool
is_known_extension ext =
    same ext (codes ".ta") || (same ext (codes ".xta") || same ext (codes ".xml"))

abbrev pub extension_warning : ℕ → Option Text → Text
extension_warning v none = []
extension_warning v (some ext) =
    if is_known_extension ext then [] else warn v (codes "unknown extension '%s'.\n" ∷ ext ∷ [])

-- warn, of an option that overrides what the extension says: its arguments are printed if warnings are
-- enabled
abbrev pub override_warning : ℕ → Bool → Text → Text → Option Text → Outcome Text
override_warning v overridden what name extpos =
    if overridden && level_enabled vl_warning v
    then (printed extpos >>= λ ext.
        ok (warn v (what ∷ name ∷ codes "' for a file with extension " ∷ ext ∷ codes ".\n" ∷ [])))
    else ok []

-- The warnings of s_compute_input_language.
unfoldable pub language_warnings : Options → Option Text → Outcome Text
unfolding strrchr
language_warnings o none = ok []
language_warnings o (some filename) = do
  let extpos = strrchr filename
  let r = of_filename extpos (o.enforced_language, o.enforced_format)
  language ←
      override_warning o.verbose_level (overrides_language o.enforced_language r.0)
        (codes "enforced language '") (lang_string o.enforced_language) extpos
  format ←
      override_warning o.verbose_level (overrides_format o.enforced_format r.1)
        (codes "enforced file format '") (format_string o.enforced_format) extpos
  ok (extension_warning o.verbose_level extpos ++ (language ++ format))

pub same_language : (e : InputLanguage) → overrides_language e e ≡ false
same_language lang_none = refl
same_language lang_ta = refl
same_language lang_xta = refl

pub same_format : (e : FileFormat) → overrides_format e e ≡ false
same_format format_none = refl
same_format format_plain = refl
same_format format_xml = refl

-- The warnings never print the extension of a file that has none, whatever the options ask for.
pub language_warnings-ok :
    (o : Options) (filename : Option Text) → (t : Text) × (language_warnings o filename ≡ ok t)
unfolding language_warnings
language_warnings-ok o none = ([], refl)
language_warnings-ok o (some filename) = of_extpos (strrchr filename) refl
  where
    of_override :
        (b : Bool) (what name ext : Text)
        → (t : Text) × (override_warning o.verbose_level b what name (some ext) ≡ ok t)
    of_override true what name ext = elim (Bool-cases (level_enabled vl_warning o.verbose_level)) [
      | inl e ↦ (
        warn o.verbose_level
            (what ∷ name ∷ codes "' for a file with extension " ∷ ext ∷ codes ".\n" ∷ []),
        rw e refl,
      )
      | inr e ↦ ([], rw e refl)
    ]
    of_override false what name ext = ([], refl)

    of_extpos :
        (extpos : Option Text)
        → strrchr filename ≡ extpos
        → (t : Text) × (language_warnings o (some filename) ≡ ok t)
    of_extpos none e =
        ([], rw (e, same_language o.enforced_language, same_format o.enforced_format) refl)
    of_extpos (some ext) e =
        let r = of_extension ext (o.enforced_language, o.enforced_format) in
        let lang = o.enforced_language in
        let fmt = o.enforced_format in
        let (t, p) =
          of_override (overrides_language lang r.0) (codes "enforced language '") (lang_string lang)
            ext in
        let (t', p') =
          of_override (overrides_format fmt r.1) (codes "enforced file format '")
            (format_string fmt) ext in
        (extension_warning o.verbose_level (some ext) ++ (t ++ t'), rw (e, p, p') refl)

kept_language : (e r : InputLanguage) → overrides_language e r ≡ false → enforce_language e r ≡ r
kept_language lang_none r h = refl
kept_language lang_ta lang_ta h = refl
kept_language lang_xta lang_xta h = refl
kept_language lang_ta lang_none h = cc
kept_language lang_ta lang_xta h = cc
kept_language lang_xta lang_none h = cc
kept_language lang_xta lang_ta h = cc

kept_format : (e r : FileFormat) → overrides_format e r ≡ false → enforce_format e r ≡ r
kept_format format_none r h = refl
kept_format format_plain format_plain h = refl
kept_format format_xml format_xml h = refl
kept_format format_plain format_none h = cc
kept_format format_plain format_xml h = cc
kept_format format_xml format_none h = cc
kept_format format_xml format_plain h = cc

known_extension :
    (ext : Text) (a b : InputLanguage × FileFormat)
    → is_known_extension ext ≡ true
    → of_extension ext a ≡ of_extension ext b
known_extension ext a b h = elim (Bool-cases (same ext (codes ".ta"))) [
  | inl e ↦ rw e refl
  | inr e ↦ elim (Bool-cases (same ext (codes ".xta"))) [
    | inl e' ↦ rw (e, e') refl
    | inr e' ↦ rw (e, e', rw (e, e') at h) refl
  ]
]

both_empty : (s t : Text) → s ++ t ≡ [] → (s ≡ []) × (t ≡ [])
both_empty [] t e = (refl, e)
both_empty (c ∷ s) t e = cc

module _ (o : Options) (v : ℕ) (ext : Text) (verbose : o.verbose_level ≡ suc v) where
  shown : (args : List Text) → warn o.verbose_level args ≢ []
  shown args e = warn-shown v args (rw verbose at e)

  enabled : level_enabled vl_warning o.verbose_level ≡ true
  unfolding level_enabled
  enabled = rw verbose (ground arith)

  no_override :
      (b : Bool) (what name t : Text)
      → override_warning o.verbose_level b what name (some ext) ≡ ok t
      → t ≡ []
      → b ≡ false
  no_override true what name t e q = absurd (shown _ (ok-injective _ _ (rw enabled at e) ∙ q))
  no_override false what name t e q = refl

  no_extension_warning :
      extension_warning o.verbose_level (some ext) ≡ [] → is_known_extension ext ≡ true
  no_extension_warning e = elim (Bool-cases (is_known_extension ext)) [
    | inl h ↦ h
    | inr h ↦ absurd (shown _ (rw h at e))
  ]

-- With verbosity, a run that warns of nothing reads a file with an extension as the extension says.
pub language_warnings-silent :
    (o : Options) (v : ℕ) (filename ext : Text)
    → o.verbose_level ≡ suc v
    → strrchr filename ≡ some ext
    → language_warnings o (some filename) ≡ ok []
    → compute_input_language o (some filename) ≡ of_extension ext (lang_none, format_none)
unfolding language_warnings compute_input_language
language_warnings-silent o v filename ext verbose q e =
    let r = of_extension ext (o.enforced_language, o.enforced_format) in
    let lang = o.enforced_language in
    let fmt = o.enforced_format in
    let (t, p, e1) =
      bind-ok
        (override_warning o.verbose_level (overrides_language lang r.0)
          (codes "enforced language '") (lang_string lang) (some ext))
        _ _ (rw q at e) in
    let (t', p', e2) =
      bind-ok
        (override_warning o.verbose_level (overrides_format fmt r.1)
          (codes "enforced file format '") (format_string fmt) (some ext))
        _ _ e1 in
    let (none_of_extension, others) = both_empty _ _ (ok-injective _ _ e2) in
    let (no_language, no_format) = both_empty t t' others in
    let known = no_extension_warning o v ext verbose none_of_extension in
    let kept = no_override o v ext verbose _ _ _ t p no_language in
    let kept' = no_override o v ext verbose _ _ _ t' p' no_format in
    rw (q, kept_language lang r.0 kept, kept_format fmt r.1 kept')
      (known_extension ext (lang, fmt) (lang_none, format_none) known)
