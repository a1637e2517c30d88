-- ===== src/Firewall.antt =====
-- sys/firewall/firewall.go: rules, and what every backend refuses. The parsers of package net are
-- arguments.
pub mod Laws
pub mod Host
pub mod Nftables
pub mod Firewalld
pub mod Ufw
mod Tests
use power_manage_sdk.Prelude.{
  ℕ, Bool, true, false, not, ◌&&◌, ◌||◌, Option, none, some, List, [], ◌∷◌, ◌++◌, Bytes, codes,
  equal, is_empty, ◌==◌, leb, ltb, if◌then◌else◌, ℤ, pos, negsuc, is_negative, to_ℕ, matches_class,
  Result, ok, err, refuse, ◌>>◌,
}

pub data Backend : Type 0 where
  nftables : Backend
  firewalld : Backend
  ufw : Backend
  -- Any other number.
  unknown : ℤ → Backend

-- The sentinels, a command's exit with its stderr, and the other failures that the source wraps.
pub data FirewallError : Type 0 where
  invalid_namespace : FirewallError
  invalid_rule : FirewallError
  unknown_backend : FirewallError
  runner_required : FirewallError
  fs_failed : FirewallError
  run_failed : FirewallError
  command_failed : ℤ → Bytes → FirewallError
  not_provisioned : FirewallError
  bad_listing : FirewallError
  no_default_zone : FirewallError

abbrev pub protocol_tcp : Bytes
protocol_tcp = codes "tcp"

abbrev pub protocol_udp : Bytes
protocol_udp = codes "udp"

abbrev pub protocol_any : Bytes
protocol_any = []

pub record Rule : Type 0 where
  pub id : Bytes
  pub allow : Bool
  pub protocol : Bytes
  pub port : ℤ
  pub source : Bytes
  pub dest : Bytes

abbrev pub is_lower : ℕ → Bool
is_lower c = leb b'a' c && leb c b'z'

abbrev pub is_decimal : ℕ → Bool
is_decimal c = leb b'0' c && leb c b'9'

abbrev pub namespace_char : ℕ → Bool
namespace_char c = is_lower c || is_decimal c || c == b'_'

abbrev pub rule_id_char : ℕ → Bool
rule_id_char c = is_lower c || is_decimal c || c == b'_' || c == b'-'

-- `namespaceRE`.
unfoldable pub namespace_re : Bytes → Bool
namespace_re = matches_class is_lower namespace_char 30

-- `ruleIDRE`.
unfoldable pub rule_id_re : Bytes → Bool
rule_id_re = matches_class (λ c. is_lower c || is_decimal c) rule_id_char 62

unfoldable pub validate_namespace : Bytes → Result FirewallError (Unit {0})
validate_namespace ns =
    refuse (is_empty ns) invalid_namespace >> refuse (not (namespace_re ns)) invalid_namespace

unfoldable pub validate_rule_id : Bytes → Result FirewallError (Unit {0})
validate_rule_id id = refuse (is_empty id) invalid_rule >> refuse (not (rule_id_re id)) invalid_rule

unfoldable pub validate_port : ℤ → Result FirewallError (Unit {0})
validate_port port = refuse (is_negative port || ltb 65535 (to_ℕ port)) invalid_rule

abbrev pub is_concrete : Bytes → Bool
is_concrete p = equal p protocol_tcp || equal p protocol_udp

unfoldable pub validate_protocol : Bytes → Result FirewallError (Unit {0})
validate_protocol p = refuse (not (is_concrete p || equal p protocol_any)) invalid_rule

-- `port > 0`, and `port == 0`.
abbrev pub is_positive : ℤ → Bool
is_positive (pos n) = ltb 0 n
is_positive (negsuc _) = false

abbrev pub is_zero : ℤ → Bool
is_zero (pos n) = n == 0
is_zero (negsuc _) = false

unfoldable pub validate_allow_scope : Rule → Result FirewallError (Unit {0})
validate_allow_scope rule =
    refuse
      (rule.allow
        && (is_empty rule.protocol
            && (is_zero rule.port && (is_empty rule.source && is_empty rule.dest))))
      invalid_rule

-- What `net.ParseCIDR` and `net.ParseIP` make of a text: for an address that they take, whether
-- `To4` finds an IPv4 address in it.
pub record Addresses : Type 0 where
  pub parse_cidr : Bytes → Option Bool
  pub parse_ip : Bytes → Option Bool

abbrev pub is_some : Option Bool → Bool
is_some none = false
is_some (some _) = true

unfoldable pub validate_addr : Addresses → Bytes → Result FirewallError (Unit {0})
validate_addr net addr =
    refuse (not (is_empty addr || (is_some (net.parse_cidr addr) || is_some (net.parse_ip addr))))
      invalid_rule

unfoldable pub validate_rule : Addresses → Rule → Result FirewallError (Unit {0})
validate_rule net rule =
    validate_rule_id rule.id
    >> validate_port rule.port
    >> validate_protocol rule.protocol
    >> validate_addr net rule.source
    >> validate_addr net rule.dest
    >> validate_allow_scope rule

abbrev pub known : Backend → Result FirewallError Backend
known (unknown _) = err unknown_backend
known backend = ok backend

-- `New`: the checks in their order; a runner that is nil and a file manager that cannot be made are
-- `false`.
unfoldable pub new : Backend → Bytes → (runner fs : Bool) → Result FirewallError Backend
new backend ns runner fs =
    validate_namespace ns
    >> refuse (not runner) runner_required
    >> refuse (not fs) fs_failed
    >> known backend

-- `Detect`, with `exec.LookPath`.
unfoldable pub detect : (Bytes → Bool) → List Backend
detect look_path =
    (if look_path (codes "nft") then nftables ∷ [] else [])
    ++ ((if look_path (codes "firewall-cmd") then firewalld ∷ [] else [])
        ++ (if look_path (codes "ufw") then ufw ∷ [] else []))
