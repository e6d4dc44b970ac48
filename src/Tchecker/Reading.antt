-- ===== src/Tchecker/Reading.antt =====
-- A reader of the vectors that outputter::sync writes (src/utot-tchecker.hh).
use uppaal_to_tchecker.Base.{
  ℕ, zero, suc, ◌<◌, ◌≤◌, Text, codes, Bool, true, false, not, ◌||◌, Option, some, none, [], ◌∷◌,
  ◌++◌, ◌==◌, if◌then◌else◌, length, append_assoc, ◌≡◌, refl, All, arith,
}
use uppaal_to_tchecker.Tchecker.{Vector, sync}
use uppaal_to_tchecker.Tchecker.Render.{sync_element, sync_elements, render}
use uppaal_to_tchecker.Translate.Reader.{Reader, ◌>>=◌, span, strip}
use uppaal_to_tchecker.Translate.RoundTrip.{length-append_text}
use uppaal_to_tchecker.Translate.Parts.{Stops, span-append, strip-append}

-- What a name of a process or of an event is made of.
abbrev pub is_plain : ℕ → Bool
is_plain c = not (c == b':' || (c == b'@' || c == b'?'))

unfoldable pub read_mark : Text → Bool × Text
read_mark [] = (false, [])
read_mark (c ∷ r) = if c == b'?' then (true, r) else (false, c ∷ r)

-- An element after its colon.
unfoldable pub read_element : Reader (Text × (Text × Bool))
unfolding span strip read_mark
read_element s =
    let (p, r) = span is_plain s in
    strip (codes "@") r >>= λ r.
    let (ev, after) = span is_plain r in
    let (marked, after) = read_mark after in some ((p, (ev, marked)), after)

unfoldable pub read_elements : ℕ → Text → Option Vector
unfolding read_element
read_elements zero s = none
read_elements (suc n) [] = some []
read_elements (suc n) (c ∷ s) =
    let rest = (do (x, r) ← read_element s; v ← read_elements n r; some (x ∷ v)) in
    if c == b':' then rest else none

-- The vector that a line spells.
unfoldable pub read_vector : Text → Option Vector
unfolding read_elements strip
read_vector s = do r ← strip (codes "sync") s; read_elements (suc (length r)) r

abbrev pub IsPlain : Text → Type 0
IsPlain s = All (λ c. is_plain c ≡ true) s

-- The names of the vector have no separator in them.
abbrev pub IsWritable : Vector → Type 0
IsWritable v = All (λ x. IsPlain x.0 × IsPlain x.1.0) v

elements-Stops : (v : Vector) → Stops is_plain (sync_elements v)
unfolding sync_elements sync_element
elements-Stops [] = tt
elements-Stops ((p, (ev, marked)) ∷ v) = refl

-- The mark, where the next element or the end follows.
read_mark-elements :
    (marked : Bool) (v : Vector)
    → read_mark ((if marked then codes "?" else []) ++ sync_elements v) ≡ (marked, sync_elements v)
unfolding read_mark sync_elements sync_element
read_mark-elements true v = refl
read_mark-elements false [] = refl
read_mark-elements false ((p, (ev, marked)) ∷ v) = refl

mark-Stops :
    (marked : Bool) (v : Vector)
    → Stops is_plain ((if marked then codes "?" else []) ++ sync_elements v)
mark-Stops true v = refl
mark-Stops false v = elements-Stops v

read_element-element :
    (p ev : Text) (marked : Bool) (v : Vector)
    → IsPlain p
    → IsPlain ev
    → read_element
        (p ++ (codes "@" ++ (ev ++ ((if marked then codes "?" else []) ++ sync_elements v))))
      ≡ some ((p, (ev, marked)), sync_elements v)
unfolding read_element strip
read_element-element p ev marked v h k =
    let rest = (if marked then codes "?" else []) ++ sync_elements v in
    rw
      (
        span-append is_plain p (b'@' ∷ (ev ++ rest)) h refl,
        span-append is_plain ev rest k (mark-Stops marked v),
        read_mark-elements marked v,
      )
      refl

read_elements-elements :
    (v : Vector) (n : ℕ) → IsWritable v → length v < n → read_elements n (sync_elements v) ≡ some v
unfolding read_elements sync_elements sync_element
read_elements-elements v zero h l = absurd (omega arith)
read_elements-elements [] (suc n) h l = refl
read_elements-elements ((p, (ev, marked)) ∷ v) (suc n) h l =
    rw
      (
        append_assoc p (codes "@" ++ (ev ++ (if marked then codes "?" else []))) (sync_elements v),
        append_assoc ev (if marked then codes "?" else []) (sync_elements v),
        read_element-element p ev marked v h.0.0 h.0.1,
        read_elements-elements v n h.1 (omega arith),
      )
      refl

longer : (s t : Text) → length t ≤ length (s ++ t)
longer s t = let q = length-append_text s t in omega (arith, q)

length_le : (v : Vector) → length v ≤ length (sync_elements v)
unfolding sync_elements sync_element
length_le [] = omega arith
length_le ((p, (ev, marked)) ∷ v) =
    let h = length_le v in
    let k =
      longer (p ++ (codes "@" ++ (ev ++ (if marked then codes "?" else [])))) (sync_elements v) in
    omega (arith, h, k)

after_keyword :
    (s r : Text)
    → strip (codes "sync") s ≡ some r
    → read_vector s ≡ read_elements (suc (length r)) r
unfolding read_vector
after_keyword s r q = rw q refl

keyword : (v : Vector) → strip (codes "sync") (render (sync v)) ≡ some (sync_elements v)
unfolding render
keyword v = strip-append (codes "sync") (sync_elements v)

-- A vector whose names have no separator in them is read back from its line.
pub read_vector-render : (v : Vector) → IsWritable v → read_vector (render (sync v)) ≡ some v
read_vector-render v h =
    let l = length_le v in
    rw (after_keyword (render (sync v)) (sync_elements v) (keyword v))
      (read_elements-elements v (suc (length (sync_elements v))) h (omega (arith, l)))
