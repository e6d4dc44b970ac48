-- ===== src/Driver/Name.antt =====
-- The name of the system (src/utot.cpp).
use uppaal_to_tchecker.Base.{
  ℕ, Text, codes, true, Option, none, some, [], ◌∷◌, map, ◌≡◌, ◌≢◌, refl, All, Bool-cases, inl, inr,
}
use uppaal_to_tchecker.Driver.{Options, is_id_char, id_char, id_of, get_system_id}

abbrev pub IsIdChar : ℕ → Type 0
IsIdChar c = is_id_char c ≡ true

id_char-IsIdChar : (c : ℕ) → IsIdChar (id_char c)
unfolding id_char
id_char-IsIdChar c = elim (Bool-cases (is_id_char c)) [ inl e ↦ rw e e | inr e ↦ rw e refl ]

map-IsIdChar : (s : Text) → All IsIdChar (map id_char s)
map-IsIdChar [] = tt
map-IsIdChar (c ∷ s) = (id_char-IsIdChar c, map-IsIdChar s)

id_char-same : (c : ℕ) → IsIdChar c → id_char c ≡ c
unfolding id_char
id_char-same c h = rw h refl

map-same : (s : Text) → All IsIdChar s → map id_char s ≡ s
map-same [] h = refl
map-same (c ∷ s) h = rw (id_char-same c h.0, map-same s h.1) refl

id_of-All : (o : Option Text) → All IsIdChar (id_of o) × (id_of o ≢ [])
unfolding id_char
id_of-All none = (map-IsIdChar (codes "System"), λ e. cc)
id_of-All (some []) = (map-IsIdChar (codes "System"), λ e. cc)
id_of-All (some (c ∷ s)) = (map-IsIdChar (c ∷ s), λ e. cc)

-- The name of the system is not empty and has only letters, digits, underscores and dots, whatever the
-- option sysname and the file's name.
pub get_system_id-All : (o : Options) → All IsIdChar (get_system_id o) × (get_system_id o ≢ [])
unfolding get_system_id
get_system_id-All o = id_of-All (elim o.sysname [ none ↦ o.input_filename | some s ↦ some s ])

-- A name given by the option sysname is kept, if it has only such characters and is not empty.
pub get_system_id-same :
    (o : Options) (c : ℕ) (s : Text)
    → o.sysname ≡ some (c ∷ s)
    → All IsIdChar (c ∷ s)
    → get_system_id o ≡ c ∷ s
unfolding get_system_id
get_system_id-same o c s given h = rw given (map-same (c ∷ s) h)
