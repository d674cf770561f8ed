-- ===== src/Prelude/Paths.antt =====
-- The operations of Go's `strings` and `path` that split and clean a path.
use silo_pkg.Prelude.Tests.{◌==◌, if◌then◌else◌}
use silo_pkg.Prelude.Lists.{is_empty}
use silo_pkg.Prelude.Bytes.{Bytes, codes, eqb}
use Prim.Native.Nat.{ℕ}
use mathlib.Core.Path.{◌≡◌, refl}
use mathlib.Core.Bool.{Bool, not, ◌&&◌, ◌||◌}
use mathlib.Core.List.{List, [], ◌∷◌, ◌++◌, reverse}

put_first : ℕ → List Bytes → List Bytes
put_first x [] = (x ∷ []) ∷ []
put_first x (part ∷ parts) = (x ∷ part) ∷ parts

-- strings.Split(s, c), for one byte c
unfoldable pub split : ℕ → Bytes → List Bytes
unfolding put_first
split c [] = [] ∷ []
split c (x ∷ s) = let parts = split c s in if x == c then [] ∷ parts else put_first x parts

-- ".." leaves the last element, if there is one to leave
parent : Bool → List Bytes → List Bytes
unfolding eqb
parent rooted [] = if rooted then [] else codes ".." ∷ []
parent rooted (top ∷ stack) =
    if not rooted && eqb top (codes "..") then codes ".." ∷ top ∷ stack else stack

push : Bool → List Bytes → Bytes → List Bytes
unfolding parent eqb
push rooted stack part =
    if is_empty part || eqb part (codes ".")
    then stack
    else if eqb part (codes "..")
    then parent rooted stack
    else part ∷ stack

push_all : Bool → List Bytes → List Bytes → List Bytes
unfolding push
push_all rooted stack [] = stack
push_all rooted stack (part ∷ parts) = push_all rooted (push rooted stack part) parts

join : List Bytes → Bytes
join [] = []
join (part ∷ []) = part
join (part ∷ next ∷ parts) = part ++ b'/' ∷ join (next ∷ parts)

or_dot : Bytes → Bytes
or_dot [] = codes "."
or_dot (x ∷ s) = x ∷ s

-- the elements of a path, cleaned and joined
unfoldable pub clean_parts : Bool → List Bytes → Bytes
unfolding push_all join or_dot
clean_parts rooted parts =
    let body = join (reverse (push_all rooted [] parts)) in
    if rooted then b'/' ∷ body else or_dot body

-- path.Clean
unfoldable pub clean : Bytes → Bytes
clean [] = codes "."
clean (c ∷ s) = clean_parts (c == b'/') (split b'/' (c ∷ s))

cleaned_path : clean (codes "a/./b//c/../d/") ≡ codes "a/b/d"
unfolding clean clean_parts split
cleaned_path = refl

cleaned_up : clean (codes "../a/../../b") ≡ codes "../../b"
unfolding clean clean_parts split
cleaned_up = refl

cleaned_root : clean (codes "/../a") ≡ codes "/a"
unfolding clean clean_parts split
cleaned_root = refl
