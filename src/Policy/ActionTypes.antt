-- ===== src/Policy/ActionTypes.antt =====
-- policy/statement.go: `validateActionTypes`, which keeps a statement to one kind of actions.
use silo_pkg.Prelude.{ℕ, suc, leb, Bool, true, false, List, [], ◌∷◌, is_empty, if◌then◌else◌}
use silo_pkg.Policy.Action.{
  Action, admin_is_valid, sts_is_valid, kms_is_valid, table_is_valid, vectors_is_valid,
}
use silo_pkg.Policy.ActionSet.{ActionSet}
use silo_pkg.Policy.Statement.{Statement}

-- The cases of the `switch` of `validateActionTypes`.
pub data Namespace : Type 0 where
  s3_space admin_space sts_space kms_space table_space vectors_space : Namespace

unfoldable pub namespace_of : Action → Namespace
namespace_of action =
    if admin_is_valid action
    then admin_space
    else if sts_is_valid action
    then sts_space
    else if kms_is_valid action
    then kms_space
    else if table_is_valid action
    then table_space
    else if vectors_is_valid action
    then vectors_space
    else s3_space

-- `hasS3`, `hasAdmin`, `hasSTS`, `hasKMS`, `hasTable` and `hasVectors`
pub record Flags : Type 0 where
  pub has_s3 : Bool
  pub has_admin : Bool
  pub has_sts : Bool
  pub has_kms : Bool
  pub has_table : Bool
  pub has_vectors : Bool

unfoldable pub set_flag : Namespace → Flags → Flags
set_flag s3_space f = record f { has_s3 = true }
set_flag admin_space f = record f { has_admin = true }
set_flag sts_space f = record f { has_sts = true }
set_flag kms_space f = record f { has_kms = true }
set_flag table_space f = record f { has_table = true }
set_flag vectors_space f = record f { has_vectors = true }

unfoldable pub flag_loop : Flags → List Action → Flags
unfolding set_flag
flag_loop f [] = f
flag_loop f (action ∷ actions) = flag_loop (set_flag (namespace_of action) f) actions

unfoldable pub count_true : List Bool → ℕ
count_true [] = 0
count_true (b ∷ bs) = let rest = count_true bs in if b then suc rest else rest

unfoldable pub flag_count : Flags → ℕ
unfolding count_true
flag_count f =
    count_true (f.has_s3 ∷ f.has_admin ∷ f.has_sts ∷ f.has_kms ∷ f.has_table ∷ f.has_vectors ∷ [])

abbrev pub no_flags : Flags
no_flags = record {
  has_s3 = false;
  has_admin = false;
  has_sts = false;
  has_kms = false;
  has_table = false;
  has_vectors = false;
}

-- The actions that the statement names, in either field.
unfoldable pub named_actions : Statement → ActionSet
named_actions st = if is_empty st.actions then st.not_actions else st.actions

-- `validateActionTypes`
unfoldable pub validate_action_types : Statement → Bool
unfolding flag_loop flag_count named_actions
validate_action_types st = leb (flag_count (flag_loop no_flags (named_actions st))) 1
