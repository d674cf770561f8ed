-- ===== src/Policy/Scan.antt =====
-- policy/admin-action.go: the fast paths of `IsValid` and `HasResource` change no answer.
use silo_pkg.Prelude.{
  ℕ, true, false, ◌||◌, List, [], ◌∷◌, all, length, ◌==◌, ◌≡◌, refl, arith, Bool-cases, inl, inr,
  ap, sym, ◌∙◌, ◌≤◌, false≢true, &&_split,
}
use silo_pkg.Prelude.Bytes.{Bytes, has_prefix, eqb, eqb→eq}
use silo_pkg.Wildcard.Pattern.{
  Token, star, any as any_byte, lit, token, Matches, empty, byte, leave, take, meaning,
}
use silo_pkg.Wildcard.Suffixes.{byte_inv}
use silo_pkg.Wildcard.Loop.{has}
use silo_pkg.Wildcard.Correct.{matches, matches_iff, matches_plain}
use silo_pkg.Condition.Values.{has_key}
use silo_pkg.Policy.Names.Admin.{supported_admin_actions, admin_actions_with_resource}
use silo_pkg.Policy.Action.{
  Action, match_any, action_match, admin_has_resource, admin_is_valid, admin_action_prefix,
  before_wildcard, can_match_prefix,
}

token-lit : (c b : ℕ) → token c ≡ lit b → (b == c) ≡ true
unfolding token
token-lit c b e = ground arith

self_token :
    (t : Token) (c : ℕ) (p s : Bytes)
    → token c ≡ t
    → Matches false (meaning p) s
    → Matches false (t ∷ meaning p) (c ∷ s)
self_token star c p s e d = take (leave d)
self_token any_byte c p s e d = byte refl d
self_token (lit b) c p s e d = byte (token-lit c b e) d

-- Every text is matched by itself read as a pattern.
Matches_itself : (s : Bytes) → Matches false (meaning s) s
Matches_itself [] = empty
Matches_itself (c ∷ s) = self_token (token c) c s s refl (Matches_itself s)

has_key-match_any : (set : List Action) (a : Action) → has_key set a ≡ true → match_any a set ≡ true
unfolding has_key match_any action_match
has_key-match_any [] a h = cc
has_key-match_any (j ∷ set) a h = elim (Bool-cases (eqb j a)) [
  | inl e ↦ rw (eqb→eq j a e) (ground (arith, (matches_iff a a).1.1 (Matches_itself a)))
  | inr e ↦ ground (arith, has_key-match_any set a)
]

match_any_plain : (set : List Action) (a : Action) → has a ≡ false → match_any a set ≡ has_key set a
unfolding has_key match_any action_match
match_any_plain [] a h = refl
match_any_plain (j ∷ set) a h =
    rw (matches_plain a j h) (ap (λ b. eqb j a || b) (match_any_plain set a h))

-- The text before the first wildcard of a pattern is a prefix of all that it matches.
head_token :
    (t : Token) (c : ℕ) (p s : Bytes)
    → token c ≡ t
    → ((s' : Bytes) → Matches false (meaning p) s' → has_prefix s' (before_wildcard p) ≡ true)
    → Matches false (t ∷ meaning p) s
    → has_prefix s (before_wildcard (c ∷ p)) ≡ true
unfolding token has_prefix before_wildcard
head_token star c p s e ih d = ground arith
head_token any_byte c p s e ih d = ground arith
head_token (lit b) c p [] e ih d = elim d [ ]
head_token (lit b) c p (x ∷ s) e ih d =
    let (a, d') = byte_inv tt d in let h = ih s d' in ground arith

head_prefix : (p s : Bytes) → Matches false (meaning p) s → has_prefix s (before_wildcard p) ≡ true
unfolding has_prefix before_wildcard
head_prefix [] [] d = refl
head_prefix [] (x ∷ s) d = refl
head_prefix (c ∷ p) s d = head_token (token c) c p s refl (head_prefix p) d

-- Of two prefixes of a text the shorter is a prefix of the longer.
pub prefix_linear :
    (s a b : Bytes)
    → has_prefix s a ≡ true
    → has_prefix s b ≡ true
    → length a ≤ length b
    → has_prefix b a ≡ true
unfolding has_prefix
prefix_linear s [] [] h k l = refl
prefix_linear s [] (y ∷ b) h k l = refl
prefix_linear [] (x ∷ a) b h k l = cc
prefix_linear (z ∷ s) (x ∷ a) [] h k l = absurd (omega arith)
prefix_linear (z ∷ s) (x ∷ a) (y ∷ b) h k l = ground (arith, prefix_linear s a b)

can_match_prefix_of :
    (s head prefix : Bytes)
    → has_prefix s head ≡ true
    → has_prefix s prefix ≡ true
    → can_match_prefix head prefix ≡ true
unfolding can_match_prefix
can_match_prefix_of s head prefix h k =
    ground (arith, prefix_linear s head prefix h k, prefix_linear s prefix head k h)

no_match_any :
    (set : List Action) (a prefix : Bytes)
    → all (λ j. has_prefix j prefix) set ≡ true
    → can_match_prefix (before_wildcard a) prefix ≡ false
    → match_any a set ≡ false
unfolding match_any action_match
no_match_any [] a prefix h k = refl
no_match_any (j ∷ set) a prefix h k = elim (Bool-cases (matches a j)) [
  | inl m ↦ absurd (
      false≢true (
        sym k
        ∙ can_match_prefix_of j (before_wildcard a) prefix
            (head_prefix a j ((matches_iff a j).1.0 m)) (&&_split _ _ h).0))
  | inr m ↦ rw m (no_match_any set a prefix (&&_split _ _ h).1 k)
]

admin_names : all (λ j. has_prefix j admin_action_prefix) supported_admin_actions ≡ true
unfolding has_prefix supported_admin_actions
admin_names = refl

-- `AdminAction.IsValid`, with its early exits, answers as a scan of all supported admin actions with
-- `Match` does.
pub admin_is_valid-scan :
    (action : Action) → admin_is_valid action ≡ match_any action supported_admin_actions
unfolding admin_is_valid
admin_is_valid-scan a = ground (
  arith,
  has_key-match_any supported_admin_actions a,
  match_any_plain supported_admin_actions a,
  no_match_any supported_admin_actions a admin_action_prefix admin_names,
)

-- `AdminAction.HasResource`, with its early exits, answers as a scan of all admin actions with a
-- resource with `Match` does.
admin_has_resource-scan :
    (action : Action) → admin_has_resource action ≡ match_any action admin_actions_with_resource
unfolding admin_has_resource
admin_has_resource-scan a = ground (
  arith,
  has_key-match_any admin_actions_with_resource a,
  match_any_plain admin_actions_with_resource a,
)
