-- ===== src/Tchecker/Render.antt =====
-- The text that each method of class outputter writes (src/utot-tchecker.hh), without the newline.
use uppaal_to_tchecker.Base.{
  Text, codes, Bool, true, false, [], ◌∷◌, ◌++◌, if◌then◌else◌, ◌≡◌, refl,
}
use uppaal_to_tchecker.Base.Integers.{decimal}
use uppaal_to_tchecker.Tchecker.{
  Attributes, Vector, Line, system, process, event, comment, clock, intvar, location, edge, sync,
  blank,
}

-- attributes: `first` is the loop's flag.
attribute_list : Bool → Attributes → Text
attribute_list first [] = []
attribute_list first ((k, v) ∷ attr) =
    (if first then [] else codes ":") ++ (k ++ (codes ":" ++ (v ++ attribute_list false attr)))

unfoldable pub attributes : Attributes → Text
unfolding attribute_list
attributes attr = codes "{" ++ (attribute_list true attr ++ codes "}")

unfoldable pub sync_element : Text → Text → Bool → Text
sync_element p ev marked =
    codes ":" ++ (p ++ (codes "@" ++ (ev ++ (if marked then codes "?" else []))))

unfoldable pub sync_elements : Vector → Text
unfolding sync_element
sync_elements [] = []
sync_elements ((p, (ev, marked)) ∷ sv) = sync_element p ev marked ++ sync_elements sv

unfoldable pub render : Line → Text
unfolding attributes sync_elements decimal
render (system id) = codes "system:" ++ id
render (process id) = codes "process:" ++ id
render (event id) = codes "event:" ++ id
render (comment t) = codes "# " ++ t
render (clock id size) = codes "clock:" ++ (decimal size ++ (codes ":" ++ id))
render (intvar min max init id size) =
    codes "int:"
    ++ (decimal size
        ++ (codes ":"
            ++ (decimal min
                ++ (codes ":"
                    ++ (decimal max ++ (codes ":" ++ (decimal init ++ (codes ":" ++ id))))))))
render (location p id attr) = codes "location:" ++ (p ++ (codes ":" ++ (id ++ attributes attr)))
render (edge p src tgt e attr) =
    codes "edge:"
    ++ (p ++ (codes ":" ++ (src ++ (codes ":" ++ (tgt ++ (codes ":" ++ (e ++ attributes attr)))))))
render (sync sv) = codes "sync" ++ sync_elements sv
render blank = []

sync_line :
    render (sync ((codes "E", (codes "a_emit", false)) ∷ (codes "R", (codes "a_recv", true)) ∷ []))
    ≡ codes "sync:E@a_emit:R@a_recv?"
unfolding render
sync_line = refl
