-- ===== src/Sync/Shapes.antt =====
-- What stands in each kind of synchronisation vector (src/utot-translate.cc).
use uppaal_to_tchecker.Base.{
  ℕ, Text, codes, same, same_iff, ne-same, Bool, true, false, none, some, [], ◌∷◌, ◌++◌, length,
  if◌then◌else◌, ◌≡◌, ◌≢◌, refl, ap, arith, Bool-cases, inl, inr,
}
use mathlib.Core.List.{append_cancel_right}
use uppaal_to_tchecker.Base.Maps.{
  TextSet, find, has, emplace, contains, has-eq-find, has-emplace, find-emplace, length-emplace,
}
use uppaal_to_tchecker.Tchecker.{Vector}
use uppaal_to_tchecker.Sync.{emit_event, recv_event, stuck_process, no_sync_event, add_receivers}
use uppaal_to_tchecker.Sync.Plan.{block, vector_of, pair_vector, broadcast_vector}

-- The last byte of a name.
abbrev final : Text → ℕ
final [] = 0
final (x ∷ []) = x
final (x ∷ y ∷ s) = final (y ∷ s)

final-append : (s : Text) (x : ℕ) (t : Text) → final (s ++ x ∷ t) ≡ final (x ∷ t)
final-append [] x t = refl
final-append (y ∷ []) x t = refl
final-append (y ∷ z ∷ s) x t = final-append (z ∷ s) x t

pub recv_event-injective : (s t : Text) → recv_event s ≡ recv_event t → s ≡ t
recv_event-injective s t e = append_cancel_right s t (codes "_recv") e

pub emit-ne-recv : (s t : Text) → emit_event s ≢ recv_event t
emit-ne-recv s t e =
    ground
      (arith, ap final e, final-append s b'_' (codes "emit"), final-append t b'_' (codes "recv"))

pub no_sync-ne-recv : (t : Text) → no_sync_event ≢ recv_event t
no_sync-ne-recv t e = ground (arith, ap final e, final-append t b'_' (codes "recv"))

single_find :
    (p q : Text) (x : Text × Bool) → find q (emplace p x []) ≡ (if same p q then some x else none)
unfolding emplace find
single_find p q x = refl

single_has : (p q : Text) (x : Text × Bool) → has q (emplace p x []) ≡ same p q
unfolding emplace has
single_has p q x = ground arith

-- Two processes of a vector built by two insertions.
double_find :
    (p q r : Text) (x y : Text × Bool)
    → p ≢ q
    → find r (emplace q y (emplace p x []))
      ≡ (if same q r then some y else if same p r then some x else none)
double_find p q r x y n =
    ground (
      arith,
      find-emplace q r y (emplace p x []),
      single_find p r x,
      single_has p q x,
      ne-same p q n,
    )

pub double_length :
    (p q : Text) (x y : Text × Bool) → p ≢ q → length (emplace q y (emplace p x [])) ≡ 2
unfolding emplace
double_length p q x y n =
    ground (arith, length-emplace q y (emplace p x []), single_has p q x, ne-same p q n)

-- A pair: the receiver receives, the emitter emits, and no other process takes part.
pub find-pair_vector :
    (s pe pr p : Text)
    → pe ≢ pr
    → find p (pair_vector s pe pr) ≡ (
        if same pr p
        then some (recv_event s, false)
        else if same pe p
        then some (emit_event s, false)
        else none)
find-pair_vector s pe pr p n = double_find pe pr p (emit_event s, false) (recv_event s, false) n

pub find-block :
    (p ev q : Text)
    → p ≢ stuck_process
    → find q (vector_of (block p ev)) ≡ (
        if same stuck_process q
        then some (no_sync_event, false)
        else if same p q
        then some (ev, false)
        else none)
find-block p ev q n = double_find p stuck_process q (ev, false) (no_sync_event, false) n

-- The loop adds each receiver that is not there yet, weakly.
find-add_receivers :
    (s pe p : Text) (rs : TextSet) (v : Vector)
    → has pe v ≡ true
    → find p (add_receivers s pe rs v)
      ≡ (if has p v then find p v else if contains p rs then some (recv_event s, true) else none)
unfolding add_receivers contains
find-add_receivers s pe p [] v h = ground (arith, has-eq-find {V = Text × Bool} p v)
find-add_receivers s pe p (q ∷ rs) v h =
    let x : Text × Bool = (recv_event s, true) in
    elim (Bool-cases (same pe q)) [
      | inl e ↦ rw e (ground (arith, find-add_receivers s pe p rs v h, same_iff pe q, same_iff q p))
      | inr n ↦ rw n (
          ground (
            arith,
            find-add_receivers s pe p rs (emplace q x v),
            find-emplace q p x v,
            has-emplace q p x v,
            has-emplace q pe x v,
            same_iff q p,
          ))
    ]

-- A broadcast: the emitter emits, every other receiver may receive, and no other process takes part.
pub find-broadcast_vector :
    (s pe p : Text) (rs : TextSet)
    → find p (broadcast_vector s pe rs) ≡ (
        if same pe p
        then some (emit_event s, false)
        else if contains p rs
        then some (recv_event s, true)
        else none)
find-broadcast_vector s pe p rs =
    let x : Text × Bool = (emit_event s, false) in
    ground (
      arith,
      find-add_receivers s pe p rs (emplace pe x []),
      single_has pe p x,
      single_has pe pe x,
      same_iff pe pe,
      single_find pe p x,
    )
