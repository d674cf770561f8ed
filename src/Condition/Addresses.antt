-- ===== src/Condition/Addresses.antt =====
-- policy/condition/ipaddrfunc.go: the condition functions on addresses.
use silo_pkg.Prelude.{
  List, [], ◌∷◌, ◌++◌, Bool, true, false, not, any, Option, none, some, if◌then◌else◌,
}
use silo_pkg.Prelude.Bytes.{Bytes, codes, contains_byte}
use silo_pkg.Condition.Names.Keys.{aws_source_ip}
use silo_pkg.Condition.Values.{Values}
use silo_pkg.Condition.Keys.{Key, get_values_by_key, key_is}
use silo_pkg.Condition.Name.{Name, ip_address, not_ip_address}
use silo_pkg.Condition.Value.{get_string, ValueSet}
use silo_pkg.Condition.Strings.{negated}
use silo_pkg.Condition.Library.{Library}

-- `ipaddrFunc`
pub record IpAddrFunc (IpNet : Type 0) : Type 0 where
  pub n : Name
  pub k : Key
  pub values : List IpNet
  pub negate : Bool

module _ (L : Library) where
  -- the first loop of `eval`; `none` is the early return
  unfoldable pub parse_ips : List Bytes → Option (List L.Ip)
  parse_ips [] = some []
  parse_ips (s ∷ rvalues) = elim (L.parse_ip s) [
    | none ↦ none
    | some ip ↦ elim (parse_ips rvalues) [ none ↦ none | some ips ↦ some (ip ∷ ips) ]
  ]

  -- the second loop
  unfoldable pub some_net_contains : List L.IpNet → List L.Ip → Bool
  some_net_contains nets ips = any (λ ip. any (λ net. L.net_contains net ip) nets) ips

  ip_test : List L.IpNet → Option (List L.Ip) → Bool
  unfolding some_net_contains
  ip_test nets none = false
  ip_test nets (some ips) = some_net_contains nets ips

  -- `ipaddrFunc.eval`
  unfoldable pub ip_eval : IpAddrFunc L.IpNet → Values → Bool
  unfolding ip_test parse_ips
  ip_eval f values = ip_test f.values (parse_ips (get_values_by_key values f.k))

  -- `ipaddrFunc.evaluate`
  unfoldable pub ip_evaluate : IpAddrFunc L.IpNet → Values → Bool
  unfolding ip_eval
  ip_evaluate f values = negated f.negate (ip_eval f values)

  -- an address with no prefix gets /32
  unfoldable pub with_prefix_length : Bytes → Bytes
  unfolding contains_byte
  with_prefix_length s = if not (contains_byte b'/' s) then s ++ codes "/32" else s

  -- `valuesToIPNets`; `none` is the error
  unfoldable pub values_to_ip_nets : ValueSet → Option (List L.IpNet)
  unfolding with_prefix_length get_string
  values_to_ip_nets [] = some []
  values_to_ip_nets (v ∷ values) = elim (get_string v) [
    | none ↦ none
    | some s ↦ elim (L.parse_cidr (with_prefix_length s)) [
      | none ↦ none
      | some net ↦ elim (values_to_ip_nets values) [ none ↦ none | some nets ↦ some (net ∷ nets) ]
    ]
  ]

  -- `newIPAddrFunc`
  unfoldable pub new_ip_addr_func : Bytes → Key → List L.IpNet → Bool → Option (IpAddrFunc L.IpNet)
  unfolding key_is
  new_ip_addr_func n key values negate =
      if not (key_is key aws_source_ip)
      then none
      else some (record {
        n = record { qualifier = []; name = n };
        k = key;
        values = values;
        negate = negate;
      })

  -- `newIPAddressFunc`; the qualifier is not used
  unfoldable pub new_ip_address_func : Key → ValueSet → Bytes → Option (IpAddrFunc L.IpNet)
  unfolding values_to_ip_nets new_ip_addr_func
  new_ip_address_func key values qualifier = elim (values_to_ip_nets values) [
    | none ↦ none
    | some nets ↦ new_ip_addr_func ip_address key nets false
  ]

  -- `newNotIPAddressFunc`
  unfoldable pub new_not_ip_address_func : Key → ValueSet → Bytes → Option (IpAddrFunc L.IpNet)
  unfolding values_to_ip_nets new_ip_addr_func
  new_not_ip_address_func key values qualifier = elim (values_to_ip_nets values) [
    | none ↦ none
    | some nets ↦ new_ip_addr_func not_ip_address key nets true
  ]
