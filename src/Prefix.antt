-- ===== src/Prefix.antt =====
-- Names of local elements: src/utot-contextprefix.hh.
use uppaal_to_tchecker.Base.{Text, codes, List, [], ◌∷◌, ◌++◌}

-- context_prefix_t
abbrev pub Prefix : Type 0
Prefix = List Text

-- the loop of operator<<
unfoldable pub rest_of : Prefix → Text
rest_of [] = []
rest_of (s ∷ p) = codes "_" ++ (s ++ rest_of p)

-- operator<<, which string_of calls; of an empty prefix the source reads past the end
unfoldable pub string_of : Prefix → Text
unfolding rest_of
string_of [] = []
string_of (s ∷ p) = s ++ rest_of p

unfoldable pub add_prefix : Prefix → Text → Text
unfolding string_of
add_prefix [] name = name
add_prefix (s ∷ p) name = string_of (s ∷ p) ++ (codes "_" ++ name)
