-- ===== src/Text/Path.antt =====
-- path.Clean: the parts of a slash-separated path, without `.`, `..` and empty ones where possible.
use mathlib.Core.List.{reverse}
use womprat.Base.{Bytes, codes, Bool, ◌||◌, List, [], ◌∷◌, ◌++◌, ◌==◌, bytes_eq, if◌then◌else◌}
use womprat.Text.Search.{has_prefix, split}

-- `..` behind the parts read so far (the last part first)
abbrev back_up : Bool → List Bytes → List Bytes
back_up rooted [] = if rooted then [] else codes ".." ∷ []
back_up rooted (top ∷ parts) = if top == codes ".." then codes ".." ∷ top ∷ parts else parts

unfoldable pub push_part : Bool → List Bytes → Bytes → List Bytes
push_part rooted parts part =
    if part == [] || part == codes "."
    then parts
    else if part == codes ".."
    then back_up rooted parts
    else part ∷ parts

unfoldable pub push_parts : Bool → List Bytes → List Bytes → List Bytes
unfolding push_part
push_parts rooted parts [] = parts
push_parts rooted parts (w ∷ ws) = push_parts rooted (push_part rooted parts w) ws

unfoldable pub join : List Bytes → Bytes
join [] = []
join (w ∷ []) = w
join (w ∷ v ∷ ws) = w ++ b'/' ∷ join (v ∷ ws)

-- The parts of the cleaned path, in order.
unfoldable pub clean_parts : Bytes → List Bytes
unfolding push_parts
clean_parts path = reverse (push_parts (has_prefix path (codes "/")) [] (split b'/' path))

unfoldable pub clean : Bytes → Bytes
unfolding clean_parts join
clean path =
    if has_prefix path (codes "/")
    then b'/' ∷ join (clean_parts path)
    else if join (clean_parts path) == []
    then codes "."
    else join (clean_parts path)
