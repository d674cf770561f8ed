-- ===== src/Policy/Namespaces.antt =====
-- policy/statement.go: what the flags of `validateActionTypes` say of a statement's actions.
use silo_pkg.Prelude.{◌≡◌, refl, Bool, true, List, [], ◌∷◌, leb, Bool-cases, inl, inr, arith}
use silo_pkg.Prelude.Bytes.{eqb, eqb→eq}
use silo_pkg.Prelude.Sets.{mem}
use silo_pkg.Policy.Action.{Action}
use silo_pkg.Policy.ActionSet.{bytes_eq}
use silo_pkg.Policy.Statement.{Statement}
use silo_pkg.Policy.ActionTypes.{
  Namespace, s3_space, admin_space, sts_space, kms_space, table_space, vectors_space, namespace_of,
  Flags, set_flag, flag_loop, flag_count, no_flags, named_actions, validate_action_types,
}

abbrev flag : Namespace → Flags → Bool
flag s3_space f = f.has_s3
flag admin_space f = f.has_admin
flag sts_space f = f.has_sts
flag kms_space f = f.has_kms
flag table_space f = f.has_table
flag vectors_space f = f.has_vectors

set_flag_self : (n : Namespace) (f : Flags) → flag n (set_flag n f) ≡ true
unfolding set_flag
set_flag_self s3_space f = refl
set_flag_self admin_space f = refl
set_flag_self sts_space f = refl
set_flag_self kms_space f = refl
set_flag_self table_space f = refl
set_flag_self vectors_space f = refl

set_flag_keeps : (m n : Namespace) (f : Flags) → flag n f ≡ true → flag n (set_flag m f) ≡ true
unfolding set_flag
set_flag_keeps s3_space s3_space f h = refl
set_flag_keeps s3_space admin_space f h = h
set_flag_keeps s3_space sts_space f h = h
set_flag_keeps s3_space kms_space f h = h
set_flag_keeps s3_space table_space f h = h
set_flag_keeps s3_space vectors_space f h = h
set_flag_keeps admin_space s3_space f h = h
set_flag_keeps admin_space admin_space f h = refl
set_flag_keeps admin_space sts_space f h = h
set_flag_keeps admin_space kms_space f h = h
set_flag_keeps admin_space table_space f h = h
set_flag_keeps admin_space vectors_space f h = h
set_flag_keeps sts_space s3_space f h = h
set_flag_keeps sts_space admin_space f h = h
set_flag_keeps sts_space sts_space f h = refl
set_flag_keeps sts_space kms_space f h = h
set_flag_keeps sts_space table_space f h = h
set_flag_keeps sts_space vectors_space f h = h
set_flag_keeps kms_space s3_space f h = h
set_flag_keeps kms_space admin_space f h = h
set_flag_keeps kms_space sts_space f h = h
set_flag_keeps kms_space kms_space f h = refl
set_flag_keeps kms_space table_space f h = h
set_flag_keeps kms_space vectors_space f h = h
set_flag_keeps table_space s3_space f h = h
set_flag_keeps table_space admin_space f h = h
set_flag_keeps table_space sts_space f h = h
set_flag_keeps table_space kms_space f h = h
set_flag_keeps table_space table_space f h = refl
set_flag_keeps table_space vectors_space f h = h
set_flag_keeps vectors_space s3_space f h = h
set_flag_keeps vectors_space admin_space f h = h
set_flag_keeps vectors_space sts_space f h = h
set_flag_keeps vectors_space kms_space f h = h
set_flag_keeps vectors_space table_space f h = h
set_flag_keeps vectors_space vectors_space f h = refl

flag_loop_keeps :
    (n : Namespace) (actions : List Action) (f : Flags)
    → flag n f ≡ true
    → flag n (flag_loop f actions) ≡ true
unfolding flag_loop
flag_loop_keeps n [] f h = h
flag_loop_keeps n (action ∷ actions) f h =
    flag_loop_keeps n actions (set_flag (namespace_of action) f)
      (set_flag_keeps (namespace_of action) n f h)

flag_loop_sets :
    (a : Action) (actions : List Action) (f : Flags)
    → mem a actions ≡ true
    → flag (namespace_of a) (flag_loop f actions) ≡ true
unfolding flag_loop mem
flag_loop_sets a [] f h = cc
flag_loop_sets a (action ∷ actions) f h = elim (Bool-cases (eqb action a)) [
  | inl same ↦ rw (← eqb→eq action a same) (
      flag_loop_keeps (namespace_of action) actions (set_flag (namespace_of action) f)
        (set_flag_self (namespace_of action) f))
  | inr other ↦ flag_loop_sets a actions (set_flag (namespace_of action) f) (ground arith)
]

two_flags :
    (m n : Namespace) (f : Flags)
    → flag m f ≡ true
    → flag n f ≡ true
    → leb (flag_count f) 1 ≡ true
    → m ≡ n
unfolding flag_count
two_flags s3_space s3_space f h k l = refl
two_flags s3_space admin_space f h k l = ground arith
two_flags s3_space sts_space f h k l = ground arith
two_flags s3_space kms_space f h k l = ground arith
two_flags s3_space table_space f h k l = ground arith
two_flags s3_space vectors_space f h k l = ground arith
two_flags admin_space s3_space f h k l = ground arith
two_flags admin_space admin_space f h k l = refl
two_flags admin_space sts_space f h k l = ground arith
two_flags admin_space kms_space f h k l = ground arith
two_flags admin_space table_space f h k l = ground arith
two_flags admin_space vectors_space f h k l = ground arith
two_flags sts_space s3_space f h k l = ground arith
two_flags sts_space admin_space f h k l = ground arith
two_flags sts_space sts_space f h k l = refl
two_flags sts_space kms_space f h k l = ground arith
two_flags sts_space table_space f h k l = ground arith
two_flags sts_space vectors_space f h k l = ground arith
two_flags kms_space s3_space f h k l = ground arith
two_flags kms_space admin_space f h k l = ground arith
two_flags kms_space sts_space f h k l = ground arith
two_flags kms_space kms_space f h k l = refl
two_flags kms_space table_space f h k l = ground arith
two_flags kms_space vectors_space f h k l = ground arith
two_flags table_space s3_space f h k l = ground arith
two_flags table_space admin_space f h k l = ground arith
two_flags table_space sts_space f h k l = ground arith
two_flags table_space kms_space f h k l = ground arith
two_flags table_space table_space f h k l = refl
two_flags table_space vectors_space f h k l = ground arith
two_flags vectors_space s3_space f h k l = ground arith
two_flags vectors_space admin_space f h k l = ground arith
two_flags vectors_space sts_space f h k l = ground arith
two_flags vectors_space kms_space f h k l = ground arith
two_flags vectors_space table_space f h k l = ground arith
two_flags vectors_space vectors_space f h k l = refl

-- A statement of which `validateActionTypes` approves names actions of one namespace only.
pub types_alike :
    (st : Statement) (a b : Action)
    → validate_action_types st ≡ true
    → mem a (named_actions st) ≡ true
    → mem b (named_actions st) ≡ true
    → namespace_of a ≡ namespace_of b
unfolding validate_action_types
types_alike st a b h ma mb =
    two_flags (namespace_of a) (namespace_of b) (flag_loop no_flags (named_actions st))
      (flag_loop_sets a (named_actions st) no_flags ma)
      (flag_loop_sets b (named_actions st) no_flags mb) h
