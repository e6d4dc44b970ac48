-- ===== src/Base/Maps.antt =====
-- std::map with text keys, and std::set of texts: lists sorted by key.
use uppaal_to_tchecker.Base.Tests.{if◌then◌else◌, In, length}
use uppaal_to_tchecker.Base.Bytes.{Text, same, same_iff, less}
use Prim.Native.Nat.{suc}
use mathlib.Core.Path.{◌≡◌, refl}
use mathlib.Core.Bool.{Bool, true, false, ◌||◌}
use mathlib.Core.Option.{Option, none, some}
use mathlib.Core.List.{List, [], ◌∷◌}
use native.Mathlib.Omega.{arith}

abbrev pub Dict {ℓ} : Type ℓ → Type ℓ
Dict V = List (Text × V)

module _ {ℓ} {V : Type ℓ} where
  -- m.find (k)
  unfoldable pub find : Text → Dict V → Option V
  find k [] = none
  find k ((j, v) ∷ m) = if same j k then some v else find k m

  -- m.find (k) != m.end ()
  unfoldable pub has : Text → Dict V → Bool
  has k [] = false
  has k ((j, v) ∷ m) = same j k || has k m

  -- Where a new key goes.
  unfoldable pub place : Text → V → Dict V → Dict V
  place k v [] = (k, v) ∷ []
  place k v ((j, w) ∷ m) = if less k j then (k, v) ∷ (j, w) ∷ m else (j, w) ∷ place k v m

  -- m.emplace (k, v): a key that is there keeps its value.
  unfoldable pub emplace : Text → V → Dict V → Dict V
  unfolding has place
  emplace k v m = if has k m then m else place k v m

  -- m.find (k)->second = v, for a key that is there.
  unfoldable pub update : Text → V → Dict V → Dict V
  update k v [] = []
  update k v ((j, w) ∷ m) = if same j k then (j, v) ∷ m else (j, w) ∷ update k v m

  -- m[k] = v
  unfoldable pub assign : Text → V → Dict V → Dict V
  unfolding has place update
  assign k v m = if has k m then update k v m else place k v m

  -- m.erase (k)
  unfoldable pub erase : Text → Dict V → Dict V
  erase k [] = []
  erase k ((j, v) ∷ m) = let rest = erase k m in if same j k then rest else (j, v) ∷ rest

  -- Each key stands once.
  abbrev pub Distinct : Dict V → Type 0
  Distinct [] = Unit
  Distinct ((k, v) ∷ m) = (has k m ≡ false) × Distinct m

  pub find-place :
      (k j : Text) (v : V) (m : Dict V)
      → has k m ≡ false
      → find j (place k v m) ≡ (if same k j then some v else find j m)
  unfolding find has place
  find-place k j v [] h = refl
  find-place k j v ((i, w) ∷ m) h =
      ground (arith, find-place k j v m, same_iff i k, same_iff i j, same_iff k j)

  pub has-eq-find : (k : Text) (m : Dict V) → has k m ≡ false → find k m ≡ none
  unfolding find has
  has-eq-find k [] h = refl
  has-eq-find k ((i, w) ∷ m) h = ground (arith, has-eq-find k m)

  pub find-none : (k : Text) (m : Dict V) → find k m ≡ none → has k m ≡ false
  unfolding find has
  find-none k [] h = refl
  find-none k ((i, w) ∷ m) h = ground (arith, find-none k m)

  pub has-place : (k j : Text) (v : V) (m : Dict V) → has j (place k v m) ≡ (same k j || has j m)
  unfolding has place
  has-place k j v [] = refl
  has-place k j v ((i, w) ∷ m) = ground (arith, has-place k j v m)

  pub place-Distinct :
      (k : Text) (v : V) (m : Dict V) → has k m ≡ false → Distinct m → Distinct (place k v m)
  unfolding has place
  place-Distinct k v [] h d = (refl, tt)
  place-Distinct k v ((i, w) ∷ m) h d =
      ground (arith, has-place k i v m, place-Distinct k v m, same_iff i k, same_iff k i)

  pub emplace-Distinct : (k : Text) (v : V) (m : Dict V) → Distinct m → Distinct (emplace k v m)
  unfolding emplace
  emplace-Distinct k v m d = ground (arith, place-Distinct k v m)

  pub has-update : (k j : Text) (v : V) (m : Dict V) → has j (update k v m) ≡ has j m
  unfolding has update
  has-update k j v [] = refl
  has-update k j v ((i, w) ∷ m) = ground (arith, has-update k j v m)

  pub update-Distinct : (k : Text) (v : V) (m : Dict V) → Distinct m → Distinct (update k v m)
  unfolding has update
  update-Distinct k v [] d = tt
  update-Distinct k v ((i, w) ∷ m) d = ground (arith, has-update k i v m, update-Distinct k v m)

  pub length-place : (k : Text) (v : V) (m : Dict V) → length (place k v m) ≡ suc (length m)
  unfolding place
  length-place k v [] = refl
  length-place k v ((i, w) ∷ m) = ground (arith, length-place k v m)

  pub length-emplace :
      (k : Text) (v : V) (m : Dict V)
      → length (emplace k v m) ≡ (if has k m then length m else suc (length m))
  unfolding emplace
  length-emplace k v m = ground (arith, length-place k v m)

  pub find-emplace :
      (k j : Text) (v : V) (m : Dict V)
      → find j (emplace k v m)
        ≡ (if has k m then find j m else if same k j then some v else find j m)
  unfolding emplace
  find-emplace k j v m = ground (arith, find-place k j v m)

  pub find-erase :
      (k j : Text) (m : Dict V) → find j (erase k m) ≡ (if same k j then none else find j m)
  unfolding find erase
  find-erase k j [] = ground arith
  find-erase k j ((i, w) ∷ m) =
      ground (arith, find-erase k j m, same_iff i k, same_iff i j, same_iff k j)

  pub has-emplace :
      (k j : Text) (v : V) (m : Dict V) → has j (emplace k v m) ≡ (same k j || has j m)
  unfolding emplace
  has-emplace k j v m = ground (arith, has-place k j v m, same_iff k j)

  pub has-erase : (k j : Text) (m : Dict V) → has j m ≡ false → has j (erase k m) ≡ false
  unfolding has erase
  has-erase k j [] h = refl
  has-erase k j ((i, w) ∷ m) h = ground (arith, has-erase k j m)

  pub erase-Distinct : (k : Text) (m : Dict V) → Distinct m → Distinct (erase k m)
  unfolding erase
  erase-Distinct k [] d = tt
  erase-Distinct k ((i, w) ∷ m) d = ground (arith, has-erase k i m, erase-Distinct k m)

  pub find-update :
      (k j : Text) (v : V) (m : Dict V)
      → has k m ≡ true
      → find j (update k v m) ≡ (if same k j then some v else find j m)
  unfolding find has update
  find-update k j v [] h = cc
  find-update k j v ((i, w) ∷ m) h =
      ground (arith, find-update k j v m, same_iff i k, same_iff i j, same_iff k j)

pub find-In : {V : Type 0} (k : Text) (v : V) (m : Dict V) → find k m ≡ some v → In (k, v) m
unfolding find
find-In k v [] h = cc
find-In k v ((i, w) ∷ m) h = ground (arith, find-In k v m, same_iff i k)

pub In-has : {V : Type 0} (k : Text) (v : V) (m : Dict V) → In (k, v) m → has k m ≡ true
unfolding has
In-has k v [] h = absurd h
In-has k v ((i, w) ∷ m) h = ground (arith, In-has k v m, same_iff i k)

pub In-find :
    {V : Type 0} (k : Text) (v : V) (m : Dict V) → Distinct m → In (k, v) m → find k m ≡ some v
unfolding find has
In-find k v [] d h = absurd h
In-find k v ((i, w) ∷ m) d h = ground (arith, In-find k v m, In-has k v m, same_iff i k)

abbrev pub TextSet : Type 0
TextSet = List Text

-- s.find (x) != s.end ()
unfoldable pub contains : Text → TextSet → Bool
contains x [] = false
contains x (y ∷ s) = same y x || contains x s

unfoldable pub place_text : Text → TextSet → TextSet
place_text x [] = x ∷ []
place_text x (y ∷ s) = if less x y then x ∷ y ∷ s else y ∷ place_text x s

-- s.insert (x)
unfoldable pub insert : Text → TextSet → TextSet
unfolding contains place_text
insert x s = if contains x s then s else place_text x s

pub contains-place_text :
    (x y : Text) (s : TextSet) → contains y (place_text x s) ≡ (same x y || contains y s)
unfolding contains place_text
contains-place_text x y [] = refl
contains-place_text x y (z ∷ s) = ground (arith, contains-place_text x y s)

pub contains-insert :
    (x y : Text) (s : TextSet) → contains y (insert x s) ≡ (same x y || contains y s)
unfolding insert
contains-insert x y s = ground (arith, contains-place_text x y s, same_iff x y)

pub contains-In : (x : Text) (s : TextSet) → contains x s ≡ true → In x s
unfolding contains
contains-In x [] h = cc
contains-In x (y ∷ s) h = ground (arith, contains-In x s, same_iff y x)

pub In-contains : (x : Text) (s : TextSet) → In x s → contains x s ≡ true
unfolding contains
In-contains x [] h = absurd h
In-contains x (y ∷ s) h = ground (arith, In-contains x s, same_iff y x)
