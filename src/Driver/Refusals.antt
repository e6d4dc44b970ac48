-- ===== src/Driver/Refusals.antt =====
-- Why the options that main has come to no translation (src/utot.cpp).
use mathlib.Core.Path.{subst}
use uppaal_to_tchecker.Base.{
  ℕ, Text, Bool, true, false, not, ◌&&◌, Option, none, some, ◌≡◌, ◌⊎◌, inl, inr, refl,
}
use uppaal_to_tchecker.Outcome.{ok, thrown, require}
use uppaal_to_tchecker.Utap.{Utap}
use uppaal_to_tchecker.Model.{System}
use uppaal_to_tchecker.Processes.{translate_model}
use uppaal_to_tchecker.Driver.Malformed.{
  Answers, bind-thrown, bind-stops, require-Answers, or_thrown-Answers, require-thrown,
  or_thrown-thrown, or_thrown-ok,
}
use uppaal_to_tchecker.Driver.{
  Options, World, FileFormat, InputLanguage, is_no_language, plain_if_none, compute_input_language,
  get_system_id, preamble, open_output_file, or_thrown, translate_file,
}

-- Why the options come to no translation.
pub data Untranslated (w : World) (g f : ℕ) (o : Options) : Type 0 where
  no_language :
      is_no_language (compute_input_language o o.input_filename).0 ≡ true → Untranslated w g f o
  no_input : w.read o.input_filename ≡ none → Untranslated w g f o
  no_model :
      (input : Text)
      → w.read o.input_filename ≡ some input
      → w.parse
          (compute_input_language o o.input_filename).0
          (plain_if_none (compute_input_language o o.input_filename).1)
          input
        ≡ none
      → Untranslated w g f o
  occupied :
      (name : Text)
      → o.output_filename ≡ some name
      → w.exists name ≡ true
      → o.erase_output ≡ false
      → Untranslated w g f o
  not_writable :
      (name : Text)
      → o.output_filename ≡ some name
      → w.can_write name ≡ false
      → Untranslated w g f o
  refused :
      (input : Text) (u : Utap) (s : System)
      → w.read o.input_filename ≡ some input
      → w.parse
          (compute_input_language o o.input_filename).0
          (plain_if_none (compute_input_language o o.input_filename).1)
          input
        ≡ some (u, s)
      → translate_model u g f (get_system_id o) s (preamble o) ≡ thrown
      → Untranslated w g f o

open_output_file-Answers :
    (w : World) (o : Options) (dest : Option Text) → Answers (open_output_file w o dest)
unfolding open_output_file
open_output_file-Answers w o none = inr (tt, refl)
open_output_file-Answers w o (some name) =
    elim (require-Answers (not (w.exists name && not o.erase_output))) [
      | inl e ↦ inl (rw e refl)
      | inr (x, e) ↦ rw e (require-Answers (w.can_write name))
    ]

both_true : (a b : Bool) → not (a && not b) ≡ false → (a ≡ true) × (b ≡ false)
both_true true false e = (refl, refl)
both_true true true e = cc
both_true false b e = cc

negated : (b : Bool) → not b ≡ false → b ≡ true
negated true e = refl
negated false e = cc

module _ (w : World) (g f : ℕ) (o : Options) where
  abbrev lang : InputLanguage
  lang = (compute_input_language o o.input_filename).0

  abbrev fmt : FileFormat
  fmt = plain_if_none (compute_input_language o o.input_filename).1

  not_opened :
      (dest : Option Text)
      → o.output_filename ≡ dest
      → open_output_file w o dest ≡ thrown
      → Untranslated w g f o
  unfolding open_output_file
  not_opened none q e = cc
  not_opened (some name) q e =
      elim (bind-thrown (require (not (w.exists name && not o.erase_output))) _ e) [
        | inl k ↦
            let (there, kept) = both_true (w.exists name) o.erase_output (require-thrown _ k) in
            occupied name q there kept
        | inr (x, k, k') ↦ not_writable name q (require-thrown (w.can_write name) k')
      ]

  pub translate_file-thrown : translate_file w g f o ≡ thrown → Untranslated w g f o
  unfolding translate_file
  translate_file-thrown e = elim (bind-thrown (require (not (is_no_language lang))) _ e) [
    | inl k ↦ no_language (negated (is_no_language lang) (require-thrown _ k))
    | inr (x, k, e1) ↦ elim (bind-thrown (or_thrown (w.read o.input_filename)) _ e1) [
      | inl k1 ↦ no_input (or_thrown-thrown _ k1)
      | inr (input, k1, e2) ↦
          let is_read = or_thrown-ok _ input k1 in
          elim (bind-thrown (or_thrown (w.parse lang fmt input)) _ e2) [
            | inl k2 ↦ no_model input is_read (or_thrown-thrown _ k2)
            | inr (p, k2, e3) ↦
                let is_parsed = or_thrown-ok _ p k2 in
                elim (bind-thrown (open_output_file w o o.output_filename) _ e3) [
                  | inl k3 ↦ not_opened o.output_filename refl k3
                  | inr (y, k3, e4) ↦
                      elim (bind-thrown (translate_model p.0 g f (get_system_id o) p.1 (preamble o))
                        _ e4) [
                          | inl k4 ↦ refused input p.0 p.1 is_read is_parsed k4
                          | inr (out, k4, e5) ↦ absurd (cc)
                        ]
                ]
          ]
    ]
  ]

  -- It throws, if what comes last does in every run that gets there.
  stops_after :
      (is_no_language lang ≡ false
        → (input : Text) → w.read o.input_filename ≡ some input
        → (p : Utap × System) → w.parse lang fmt input ≡ some p
        → (y : Unit {0}) → open_output_file w o o.output_filename ≡ ok y
        → translate_model p.0 g f (get_system_id o) p.1 (preamble o) ≡ thrown)
      → translate_file w g f o ≡ thrown
  unfolding translate_file
  stops_after h = bind-stops (require (not (is_no_language lang))) _ (require-Answers _) λ x k.
      bind-stops (or_thrown (w.read o.input_filename)) _ (or_thrown-Answers _) λ input k1.
        bind-stops (or_thrown (w.parse lang fmt input)) _ (or_thrown-Answers _) λ p k2.
          bind-stops (open_output_file w o o.output_filename) _
            (open_output_file-Answers w o o.output_filename)
            λ y k3.
              let is_known = passed (is_no_language lang) x k in
              let is_read = or_thrown-ok _ input k1 in
              let is_parsed = or_thrown-ok _ p k2 in
              rw (h is_known input is_read p is_parsed y k3) refl
    where
      passed : (b : Bool) (x : Unit {0}) → require (not b) ≡ ok x → b ≡ false
      passed true x e = cc
      passed false x e = refl

  open_output_file-stops :
      (name : Text)
      → o.output_filename ≡ some name
      → ((w.exists name ≡ true) × (o.erase_output ≡ false)) ⊎ (w.can_write name ≡ false)
      → open_output_file w o o.output_filename ≡ thrown
  unfolding open_output_file
  open_output_file-stops name q (inl (there, kept)) = rw (q, there, kept) refl
  open_output_file-stops name q (inr e) =
      rw (q, e)
        (bind-stops (require (not (w.exists name && not o.erase_output))) _ (require-Answers _)
          λ x k. refl)

  pub translate_file-stops : Untranslated w g f o → translate_file w g f o ≡ thrown
  translate_file-stops (no_language e) = stops_after λ k input k1 p k2 y k3. absurd (cc)
  translate_file-stops (no_input e) = stops_after λ k input k1 p k2 y k3. absurd (cc)
  translate_file-stops (no_model input r e) =
      stops_after λ k input' k1 p k2 y k3. let same_input : input ≡ input' = cc in absurd (cc)
  translate_file-stops (occupied name q there kept) = stops_after λ k input k1 p k2 y k3.
      absurd (let t = open_output_file-stops name q (inl (there, kept)) in cc)
  translate_file-stops (not_writable name q e) =
      stops_after
        λ k input k1 p k2 y k3. absurd (let t = open_output_file-stops name q (inr e) in cc)
  translate_file-stops (refused input u s r e t) = stops_after λ k input' k1 p k2 y k3.
      let same_input : input ≡ input' = cc in
      let same_model : (u, s) ≡ p = cc in
      subst
        (λ (p : Utap × System). translate_model p.0 g f (get_system_id o) p.1 (preamble o) ≡ thrown)
        same_model t
