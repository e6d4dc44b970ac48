-- ===== src/Sync/Plan.antt =====
-- What s_generate_sync_vectors has to write, as a list of requests that no state runs through.
use uppaal_to_tchecker.Base.{
  Text, same, Bool, false, not, ◌||◌, Option, none, some, List, [], ◌∷◌, ◌++◌, leb, length,
  if◌then◌else◌, gather,
}
use uppaal_to_tchecker.Base.Maps.{Dict, TextSet, find, emplace, erase, contains}
use uppaal_to_tchecker.Tchecker.{Vector, put, sync}
use uppaal_to_tchecker.Sync.{
  GlobalEvents, Writer, emit_event, recv_event, csp_event, stuck_process, no_sync_event,
  add_receivers, generate_blocked_event,
}

-- A vector between processes of the model, or one that blocks an event of a process for ever.
pub data Request : Type 0 where
  synchronise : Vector → Request
  block : Text → Text → Request

abbrev pub vector_of : Request → Vector
vector_of (synchronise v) = v
vector_of (block p ev) = emplace stuck_process (no_sync_event, false) (emplace p (ev, false) [])

unfoldable pub perform : Writer → Request → Writer
unfolding put
perform w (synchronise v) = record w { tckout = put w.tckout (sync v) }
perform w (block p ev) = generate_blocked_event w ev p (λ e. e)

unfoldable pub perform_all : Writer → List Request → Writer
unfolding perform
perform_all w [] = w
perform_all w (r ∷ rs) = perform_all (perform w r) rs

abbrev pub pair_vector : Text → Text → Text → Vector
pair_vector s pe pr = emplace pr (recv_event s, false) (emplace pe (emit_event s, false) [])

abbrev pub broadcast_vector : Text → Text → TextSet → Vector
broadcast_vector s pe receivers = add_receivers s pe receivers (emplace pe (emit_event s, false) [])

-- Some process of the set is another one than the emitter.
abbrev pub has_partner : Text → TextSet → Bool
has_partner pe [] = false
has_partner pe (pr ∷ receivers) = not (same pe pr) || has_partner pe receivers

abbrev pub some_partner : TextSet → TextSet → Bool
some_partner [] receivers = false
some_partner (pe ∷ emitters) receivers = has_partner pe receivers || some_partner emitters receivers

abbrev pub pair_request : Text → Text → Text → List Request
pair_request s pe pr = if same pe pr then [] else synchronise (pair_vector s pe pr) ∷ []

abbrev pub pairs : Text → TextSet → Text → List Request
pairs s receivers pe =
    if has_partner pe receivers
    then gather (pair_request s pe) receivers
    else block pe (emit_event s) ∷ []

abbrev pub casts : Text → TextSet → Text → List Request
casts s receivers pe =
    if has_partner pe receivers then synchronise (broadcast_vector s pe receivers) ∷ [] else []

abbrev pub blocks : (Text → Text) → Text × TextSet → List Request
blocks trevent (s, processes) = gather (λ p. block p (trevent s) ∷ []) processes

-- The requests for the emitters of one channel, by its receivers.
abbrev pub channel_requests : TextSet → Text → TextSet → Option TextSet → List Request
channel_requests brodcasts s emitters none =
    if contains s brodcasts then [] else blocks emit_event (s, emitters)
channel_requests brodcasts s emitters (some procs) =
    if contains s brodcasts
    then gather (casts s procs) emitters
    else gather (pairs s procs) emitters

unfoldable pub channel : TextSet → Dict TextSet → Text × TextSet → List Request
channel brodcasts receivers (s, emitters) = channel_requests brodcasts s emitters (find s receivers)

-- Two distinct processes meet on the channel.
abbrev pub meet : TextSet → Option TextSet → Bool
meet emitters none = false
meet emitters (some procs) = some_partner emitters procs

unfoldable pub is_served : Dict TextSet → Text × TextSet → Bool
is_served receivers (s, emitters) = meet emitters (find s receivers)

-- The receivers of the channels on which no two distinct processes meet.
unfoldable pub remaining : Dict TextSet → Dict TextSet → Dict TextSet
unfolding is_served erase
remaining receivers [] = receivers
remaining receivers (kv ∷ emitters) =
    remaining (if is_served receivers kv then erase kv.0 receivers else receivers) emitters

-- A process with no IO section is blocked.
abbrev pub csp_block_for : Text → Text → Option TextSet → List Request
csp_block_for s p none = block p (csp_event s) ∷ []
csp_block_for s p (some _) = []

abbrev pub csp_block : Dict TextSet → Text → Text → List Request
csp_block allowed s p = csp_block_for s p (find p allowed)

-- A process whose IO section names the event takes part.
abbrev pub csp_join : Text → Text → Option TextSet → Vector → Vector
csp_join s p none vect = vect
csp_join s p (some set) vect = if contains s set then emplace p (s, false) vect else vect

abbrev pub csp_vector : Dict TextSet → Text → TextSet → Vector → Vector
csp_vector allowed s [] vect = vect
csp_vector allowed s (p ∷ processes) vect =
    csp_vector allowed s processes (csp_join s p (find p allowed) vect)

abbrev pub csp_requests : Dict TextSet → Text × TextSet → List Request
csp_requests allowed (s, processes) =
    gather (csp_block allowed s) processes
    ++ (let v = csp_vector allowed s processes [] in
        if leb 2 (length v) then synchronise v ∷ [] else [])

unfoldable pub plan : GlobalEvents → List Request
unfolding channel remaining
plan ev =
    gather (channel ev.brodcasts ev.receivers) ev.emitters
    ++ (gather (blocks recv_event) (remaining ev.receivers ev.emitters)
        ++ gather (csp_requests ev.allowed_csp) ev.csp)
