-- ===== src/Ellipses/Lists.antt =====
-- ellipses/list.go: the lists of a pattern {a,b,c}.
use silo_pkg.Prelude.{
  List, [], ◌∷◌, Bool, false, not, all, any, is_empty, if◌then◌else◌, ◌==◌, ◌≡◌, refl,
}
use silo_pkg.Prelude.Bytes.{Bytes, codes, has_prefix}
use silo_pkg.Prelude.Paths.{split}
use silo_pkg.Ellipses.Text.{trim_prefix, trim_suffix}
use silo_pkg.Ellipses.Range.{Result, done, error}

ends_with : Bytes → Bool
ends_with [] = false
ends_with (c ∷ []) = c == b'}'
ends_with (c ∷ d ∷ s) = ends_with (d ∷ s)

list_seq : List Bytes → Result (List Bytes)
list_seq [] = error
list_seq (a ∷ []) = error
list_seq (a ∷ b ∷ seq) = if any is_empty (a ∷ b ∷ seq) then error else done (a ∷ b ∷ seq)

-- `parseListRange`
unfoldable pub parse_list_range : Bytes → Result (List Bytes)
unfolding has_prefix ends_with trim_prefix trim_suffix split list_seq
parse_list_range pattern =
    if not (has_prefix pattern (b'{' ∷ []))
    then error
    else if not (ends_with pattern)
    then error
    else list_seq (split b',' (trim_suffix b'}' (trim_prefix b'{' pattern)))

-- `HasList`; `match_string` is that of the regular expression
unfoldable pub has_list : (Bytes → Bool) → List Bytes → Bool
has_list match_string [] = false
has_list match_string (arg ∷ args) = all match_string (arg ∷ args)

three : parse_list_range (codes "{1,3,4}") ≡ done (codes "1" ∷ codes "3" ∷ codes "4" ∷ [])
unfolding parse_list_range
three = refl
