-- ===== src/Firewall/Ufw/Args.antt =====
-- sys/firewall/ufw.go: the arguments that add a rule.
use power_manage_sdk.Firewall.{FirewallError, invalid_rule, Rule, is_concrete, is_positive, is_zero}
use power_manage_sdk.Firewall.Ufw.Status.{ufw_comment_identity}
use power_manage_sdk.Prelude.{
  not, ◌&&◌, ◌||◌, List, [], ◌∷◌, ◌++◌, Bytes, codes, equal, is_empty, if◌then◌else◌, ℤ, itoa,
  Result, ok, refuse, ◌>>◌,
}

unfoldable pub ufw_validate_rule : Rule → Result FirewallError (Unit {0})
ufw_validate_rule rule =
    refuse (is_positive rule.port && is_empty rule.protocol) invalid_rule
    >> refuse
        (is_zero rule.port
          && (is_empty rule.protocol && (is_empty rule.source && is_empty rule.dest)))
        invalid_rule

abbrev pub or_any : Bytes → Bytes
or_any addr = if is_empty addr then codes "any" else addr

abbrev pub port_args : ℤ → List Bytes
port_args port = if is_positive port then codes "port" ∷ itoa port ∷ [] else []

abbrev pub protocol_args : Bytes → List Bytes
protocol_args p = if is_concrete p then codes "proto" ∷ p ∷ [] else []

-- The three forms: with addresses, with a port, and with a protocol alone.
abbrev pub scope_args : Rule → List Bytes
scope_args rule =
    if not (is_empty rule.source) || not (is_empty rule.dest)
    then (codes "from" ∷ or_any rule.source ∷ codes "to" ∷ or_any rule.dest ∷ [])
      ++ (port_args rule.port ++ protocol_args rule.protocol)
    else if is_positive rule.port
    then (itoa rule.port ++ (b'/' ∷ rule.protocol)) ∷ []
    else codes "from" ∷ codes "any" ∷ codes "to" ∷ codes "any" ∷ codes "proto" ∷ rule.protocol ∷ []

-- `ufwBuildAddArgs`.
unfoldable pub ufw_build_add_args : Bytes → Rule → Result FirewallError (List Bytes)
unfolding ufw_validate_rule itoa equal
ufw_build_add_args ns rule =
    ufw_validate_rule rule
    >> ok (
        (if rule.allow then codes "allow" else codes "deny")
        ∷ (scope_args rule ++ (codes "comment" ∷ ufw_comment_identity ns rule.id ∷ [])))
