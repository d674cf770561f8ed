-- ===== src/Policy/Effect.antt =====
-- policy/effect.go: the effect of a statement, a string.
use silo_pkg.Prelude.{Bool, not, ◌||◌, if◌then◌else◌}
use silo_pkg.Prelude.Bytes.{Bytes, codes, eqb}

abbrev pub Effect : Type 0
Effect = Bytes

abbrev pub allow : Effect
allow = codes "Allow"

abbrev pub deny : Effect
deny = codes "Deny"

-- `Effect.IsAllowed`
unfoldable pub effect_is_allowed : Effect → Bool → Bool
effect_is_allowed effect b = if eqb effect allow then b else not b

-- `Effect.IsValid`
unfoldable pub effect_is_valid : Effect → Bool
effect_is_valid effect = eqb effect allow || eqb effect deny
