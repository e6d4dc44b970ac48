-- ===== src/Sync/Display.antt =====
-- The messages about the tables of events at the level VL_INFO: s_display_proc_set and
-- s_display_table_of_events (src/utot-translate.cc).
use uppaal_to_tchecker.Base.{ℕ, Text, codes, ltb, leb, if◌then◌else◌, [], ◌∷◌, ◌++◌, gather}
use uppaal_to_tchecker.Base.Maps.{TextSet}
use uppaal_to_tchecker.Sync.{GlobalEvents}

-- msg<VL_INFO>: the text after one space, if the level of verbosity is above 2
abbrev msg_info : ℕ → Text → Text
msg_info verbose t = if ltb 2 verbose then codes " " ++ t else []

-- s_display_proc_set
unfoldable pub display_proc_set : ℕ → Text → Text × TextSet → Text
display_proc_set verbose action (e, procs) =
    msg_info verbose (e ++ (codes " " ++ (action ++ codes ":")))
    ++ (if leb 2 verbose then gather (λ p. codes " " ++ p) procs ++ 10 ∷ [] else [])

-- The list of events under a title, if there is one.
abbrev pub display_labels : ℕ → Text → TextSet → Text
display_labels verbose title [] = []
display_labels verbose title (e ∷ es) =
    msg_info verbose (title ++ 10 ∷ [])
    ++ gather (λ ev. msg_info verbose (9 ∷ ev ++ 10 ∷ [])) (e ∷ es)

-- s_display_table_of_events
unfoldable pub display_table_of_events : ℕ → GlobalEvents → Text
unfolding display_proc_set
display_table_of_events verbose events =
    if ltb 2 verbose
    then msg_info verbose (codes "Table of events:" ++ 10 ∷ [])
      ++ gather (display_proc_set verbose (codes "is emitted by")) events.emitters
      ++ gather (display_proc_set verbose (codes "is received by")) events.receivers
      ++ gather (display_proc_set verbose (codes "synchronizes")) events.csp
      ++ display_labels verbose (codes "global events:") events.labels
      ++ display_labels verbose (codes "broadcast events:") events.brodcasts
    else []
