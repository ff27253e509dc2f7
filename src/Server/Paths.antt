-- ===== src/Server/Paths.antt =====
-- The paths that `http.ServeMux` hands to its handlers as they are: net/http, `cleanPath`, on which
-- internal/server/server.go, `Handler`, relies.
use natcat.Base.{Bool, List, [], drop, false, if◌then◌else◌, is_nil, ◌++◌, ◌||◌, ◌∷◌}
use natcat.Text.{Text, codes, split, text_eq}

-- An empty part and `.` are left out, and `..` takes the part before it away; `stack` is the parts
-- so far, the last one first.
unfoldable pub next_stack : Text → List Text → List Text
unfolding text_eq
next_stack part stack =
    if is_nil part || text_eq part (codes ".")
    then stack
    else if text_eq part (codes "..")
    then drop 1 stack
    else part ∷ stack

unfoldable pub stack_of : List Text → List Text → List Text
unfolding next_stack
stack_of stack [] = stack
stack_of stack (part ∷ parts) = stack_of (next_stack part stack) parts

unfoldable pub joined : List Text → Text → Text
joined [] path = path
joined (part ∷ stack) path = joined stack (b'/' ∷ part ++ path)

abbrev pub ends_empty : List Text → Bool
ends_empty [] = false
ends_empty (part ∷ []) = is_nil part
ends_empty (part ∷ next ∷ parts) = ends_empty (next ∷ parts)

-- `cleanPath`: a slash at the end stays.
unfoldable pub clean_path : Text → Text
unfolding stack_of joined split
clean_path path =
    let parts = split path b'/' in
    let clean = joined (stack_of [] parts) [] in
    if is_nil clean then codes "/" else if ends_empty parts then clean ++ codes "/" else clean
