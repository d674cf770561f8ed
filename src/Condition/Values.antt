-- ===== src/Condition/Values.antt =====
-- policy/condition/value.go and keyname.go: the values of a request under the names of the keys.
-- A Go map is a list of entries; the first entry of a key counts.
use silo_pkg.Prelude.{
  ℕ, ◌+◌, ◌-◌, Bool, true, false, not, ◌&&◌, ◌||◌, List, [], ◌∷◌, Option, none, some, ◌==◌, leb,
  if◌then◌else◌, any, ◌≡◌, refl,
}
use silo_pkg.Prelude.Bytes.{Bytes, eqb, codes}

-- `map[string][]string`
abbrev pub Values : Type 0
Values = List (Bytes × List Bytes)

-- `values, ok := m[k]`
unfoldable pub values_at : Values → Bytes → Option (List Bytes)
values_at [] k = none
values_at ((j, v) ∷ m) k = if eqb j k then some v else values_at m k

-- `m[k]`, with the nil slice for a key that is absent
unfoldable pub values_or_nil : Option (List Bytes) → List Bytes
values_or_nil none = []
values_or_nil (some v) = v

-- `s[:idx]` and `s[idx:]` at the first byte c, if there is one
unfoldable pub before_byte : ℕ → Bytes → Bytes
before_byte c [] = []
before_byte c (x ∷ s) = if x == c then [] else x ∷ before_byte c s

unfoldable pub from_byte : ℕ → Bytes → Bytes
from_byte c [] = []
from_byte c (x ∷ s) = if x == c then x ∷ s else from_byte c s

-- The keys of `toTrim`.
unfoldable pub to_trim : List Bytes
to_trim =
    codes "aws"
    ∷ codes "jwt"
    ∷ codes "ldap"
    ∷ codes "sts"
    ∷ codes "svc"
    ∷ codes "s3"
    ∷ codes "s3tables"
    ∷ []

-- whether a map with these keys has the key k
unfoldable pub has_key : List Bytes → Bytes → Bool
unfolding eqb
has_key [] k = false
has_key (j ∷ m) k = eqb j k || has_key m k

trim_at : Bytes → Bytes → Bytes
trim_at key [] = key
trim_at key (colon ∷ name) = if has_key to_trim (before_byte b':' key) then name else key

-- `KeyName.Name`
unfoldable pub key_name : Bytes → Bytes
unfolding trim_at to_trim has_key before_byte from_byte
key_name key = trim_at key (from_byte b':' key)

-- The bytes of a token of RFC 7230, as `net/textproto` tests them.
is_upper : ℕ → Bool
is_upper c = leb b'A' c && leb c b'Z'

is_lower : ℕ → Bool
is_lower c = leb b'a' c && leb c b'z'

is_digit : ℕ → Bool
is_digit c = leb b'0' c && leb c b'9'

token_marks : Bytes
token_marks = codes "!#$%&'*+-.^_`|~"

valid_header_byte : ℕ → Bool
unfolding is_upper is_lower is_digit token_marks
valid_header_byte c = is_upper c || is_lower c || is_digit c || any (λ m. m == c) token_marks

all_header_bytes : Bytes → Bool
unfolding valid_header_byte
all_header_bytes [] = true
all_header_bytes (c ∷ s) = valid_header_byte c && all_header_bytes s

-- upper case at the start and behind each '-', lower case elsewhere
canonical_from : Bool → Bytes → Bytes
unfolding is_upper is_lower
canonical_from upper [] = []
canonical_from upper (c ∷ s) =
    (if upper && is_lower c then c - 32 else if not upper && is_upper c then c + 32 else c)
    ∷ canonical_from (c == b'-') s

-- http.CanonicalHeaderKey
unfoldable pub canonical_header_key : Bytes → Bytes
unfolding all_header_bytes canonical_from
canonical_header_key s = if all_header_bytes s then canonical_from true s else s

header_name : canonical_header_key (codes "x-amz-copy-source") ≡ codes "X-Amz-Copy-Source"
unfolding canonical_header_key
header_name = refl

trimmed_name : key_name (codes "s3:x-amz-copy-source") ≡ codes "x-amz-copy-source"
unfolding key_name eqb
trimmed_name = refl
