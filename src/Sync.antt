-- ===== src/Sync.antt =====
-- Synchronisation of processes: the tables of events and the vectors written for them
-- (src/utot-translate.cc).
pub mod Plan
pub mod Refines
pub mod Total
pub mod Lines
pub mod Scope
pub mod Meaning
pub mod Remaining
pub mod Sound
pub mod Complete
pub mod Shapes
pub mod Written
pub mod Covered
pub mod Display
use uppaal_to_tchecker.Base.{
  Text, codes, same, ℕ, Bool, true, false, ◌&&◌, Option, none, some, List, [], ◌∷◌, ◌++◌, leb,
  length, if◌then◌else◌,
}
use uppaal_to_tchecker.Base.Maps.{Dict, TextSet, find, emplace, assign, erase, contains}
use uppaal_to_tchecker.Tchecker.{
  Attributes, Vector, Outputter, put, process, event, comment, location, sync, location_initial,
}

-- struct global_events_t
pub record GlobalEvents : Type 0 where
  pub emitters : Dict TextSet
  pub receivers : Dict TextSet
  pub csp : Dict TextSet
  pub allowed_csp : Dict TextSet
  pub labels : TextSet
  pub brodcasts : TextSet

abbrev pub stuck_process : Text
stuck_process = codes "Stuck"

abbrev pub no_sync_event : Text
no_sync_event = codes "nosync"

abbrev pub emit_event : Text → Text
emit_event uevent = uevent ++ codes "_emit"

abbrev pub recv_event : Text → Text
recv_event uevent = uevent ++ codes "_recv"

abbrev pub csp_event : Text → Text
csp_event uevent = uevent

-- The writer, with the flag that says that the process Stuck has still to be declared.
pub record Writer : Type 0 where
  pub tckout : Outputter
  pub add_stuck_process : Bool

-- s_generate_emit_recv; whether a vector was written
unfoldable pub generate_emit_recv : Outputter → Text → Text → Text → Outputter × Bool
unfolding put emplace
generate_emit_recv o s pe pr = if same pe pr then (o, false) else (
  put o (sync (emplace pr (recv_event s, false) (emplace pe (emit_event s, false) []))),
  true,
)

-- the loop of s_generate_emit_broadcast over the receivers
unfoldable pub add_receivers : Text → Text → TextSet → Vector → Vector
unfolding emplace
add_receivers s pe [] vect = vect
add_receivers s pe (pr ∷ receivers) vect =
    add_receivers s pe receivers (if same pe pr then vect else emplace pr (recv_event s, true) vect)

-- s_generate_emit_broadcast
unfoldable pub generate_emit_broadcast : Outputter → Text → Text → TextSet → Outputter × Bool
unfolding put add_receivers
generate_emit_broadcast o s pe receivers =
    let vect = add_receivers s pe receivers (emplace pe (emit_event s, false) []) in
    if leb 2 (length vect) then (put o (sync vect), true) else (o, false)

-- s_add_stuck_process
unfoldable pub add_stuck_process : Outputter → Outputter
unfolding put assign
add_stuck_process o =
    put
      (put
        (put
          (put o (
            comment (
              codes
                "dummy process used to block emitted/received events that aren't synchronized.")))
          (process stuck_process))
        (event no_sync_event))
      (location stuck_process (codes "sink") (assign location_initial [] []))

-- s_generate_blocked_event
unfoldable pub generate_blocked_event : Writer → Text → Text → (Text → Text) → Writer
unfolding put add_stuck_process emplace
generate_blocked_event w s p trevent =
    let o = if w.add_stuck_process then add_stuck_process w.tckout else w.tckout in
    record {
      tckout =
          put o
            (sync (emplace stuck_process (no_sync_event, false) (emplace p (trevent s, false) [])));
      add_stuck_process = false;
    }

-- the body of the loop of s_generate_strong_sync, by what allowed_csp.find (P) gives
unfoldable pub join_csp : Writer → Text → Text → Option TextSet → Vector → Writer × Vector
unfolding generate_blocked_event contains emplace
join_csp w s p none vect = (generate_blocked_event w s p csp_event, vect)
join_csp w s p (some set) vect = (w, if contains s set then emplace p (s, false) vect else vect)

unfoldable pub strong_sync_vector :
    Writer → Text → TextSet → Dict TextSet → Vector → Writer × Vector
unfolding join_csp find
strong_sync_vector w s [] allowed vect = (w, vect)
strong_sync_vector w s (p ∷ processes) allowed vect =
    let (w', vect') = join_csp w s p (find p allowed) vect in
    strong_sync_vector w' s processes allowed vect'

-- s_generate_strong_sync
unfoldable pub generate_strong_sync : Writer → Text → TextSet → Dict TextSet → Writer
unfolding strong_sync_vector put
generate_strong_sync w s processes allowed =
    let (w', vect) = strong_sync_vector w s processes allowed [] in
    if leb 2 (length vect) then record w' { tckout = put w'.tckout (sync vect) } else w'

-- `for (PE : emitters) s_generate_blocked_event (s, PE, trevent)`
unfoldable pub block_all : Writer → Text → TextSet → (Text → Text) → Writer
unfolding generate_blocked_event
block_all w s [] trevent = w
block_all w s (p ∷ processes) trevent =
    block_all (generate_blocked_event w s p trevent) s processes trevent

-- `for (PR : receivers) if (s_generate_emit_recv (s, PE, PR)) norecv = false`
unfoldable pub emit_to_all : Outputter → Text → Text → TextSet → Bool → Outputter × Bool
unfolding generate_emit_recv
emit_to_all o s pe [] norecv = (o, norecv)
emit_to_all o s pe (pr ∷ receivers) norecv =
    let r = generate_emit_recv o s pe pr in
    emit_to_all r.0 s pe receivers (if r.1 then false else norecv)

-- the loop over the emitters of a channel that is not a broadcast; the flag is clear_receivers
unfoldable pub pair_emitters : Writer → Text → TextSet → TextSet → Bool → Writer × Bool
unfolding emit_to_all generate_blocked_event
pair_emitters w s [] receivers clear_receivers = (w, clear_receivers)
pair_emitters w s (pe ∷ emitters) receivers clear_receivers =
    let r = emit_to_all w.tckout s pe receivers true in
    let w' : Writer = record w { tckout = r.0 } in
    pair_emitters (if r.1 then generate_blocked_event w' s pe emit_event else w') s emitters
      receivers (if r.1 then clear_receivers else true)

-- the same loop for a broadcast channel
unfoldable pub broadcast_emitters : Writer → Text → TextSet → TextSet → Bool → Writer × Bool
unfolding generate_emit_broadcast
broadcast_emitters w s [] receivers clear_receivers = (w, clear_receivers)
broadcast_emitters w s (pe ∷ emitters) receivers clear_receivers =
    let r = generate_emit_broadcast w.tckout s pe receivers in
    broadcast_emitters (record w { tckout = r.0 }) s emitters receivers
      (if r.1 then true else clear_receivers)

-- the body of the loop over events.emitters, by what events.receivers.find (s) gives; the second
-- component is events.receivers
unfoldable pub serve_channel :
    TextSet → Writer → Dict TextSet → Text → TextSet → Option TextSet → Writer × Dict TextSet
unfolding contains erase block_all pair_emitters broadcast_emitters
serve_channel brodcasts w receivers s emitters none =
    (if contains s brodcasts then w else block_all w s emitters emit_event, receivers)
serve_channel brodcasts w receivers s emitters (some procs) =
    let r =
      if contains s brodcasts
      then broadcast_emitters w s emitters procs false
      else pair_emitters w s emitters procs false in
    (r.0, if r.1 then erase s receivers else receivers)

unfoldable pub emitter_step :
    TextSet → Writer × Dict TextSet → Text × TextSet → Writer × Dict TextSet
unfolding find serve_channel
emitter_step brodcasts (w, receivers) (s, emitters) =
    serve_channel brodcasts w receivers s emitters (find s receivers)

unfoldable pub emitter_loop : TextSet → Writer × Dict TextSet → Dict TextSet → Writer × Dict TextSet
unfolding emitter_step
emitter_loop brodcasts state [] = state
emitter_loop brodcasts state (kv ∷ emitters) =
    emitter_loop brodcasts (emitter_step brodcasts state kv) emitters

-- the loop over the receivers that are left
unfoldable pub receiver_loop : Writer → Dict TextSet → Writer
unfolding block_all
receiver_loop w [] = w
receiver_loop w ((s, procs) ∷ receivers) = receiver_loop (block_all w s procs recv_event) receivers

unfoldable pub csp_loop : Writer → Dict TextSet → Dict TextSet → Writer
unfolding generate_strong_sync
csp_loop w allowed [] = w
csp_loop w allowed ((s, procs) ∷ csp) =
    csp_loop (generate_strong_sync w s procs allowed) allowed csp

-- s_generate_sync_vectors
unfoldable pub generate_sync_vectors : Outputter → GlobalEvents → Outputter
unfolding emitter_loop receiver_loop csp_loop
generate_sync_vectors o events =
    let start : Writer = record { tckout = o; add_stuck_process = true } in
    let r = emitter_loop events.brodcasts (start, events.receivers) events.emitters in
    (csp_loop (receiver_loop r.0 r.1) events.allowed_csp events.csp).tckout
