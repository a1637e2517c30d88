-- ===== src/Firewall/Firewalld/Service.antt =====
-- sys/firewall/firewalld.go: the definition of a service, written and read.
use power_manage_sdk.Paths.Clean.{clean}
use power_manage_sdk.Prelude.Search.{after_first}
use power_manage_sdk.Firewall.{FirewallError, invalid_rule, Rule, is_concrete, is_positive, is_zero}
use power_manage_sdk.Prelude.{
  true, not, ◌||◌, Option, none, some, List, [], ◌∷◌, ◌++◌, Bytes, codes, equal, is_empty, fields,
  cut_at, cut_prefix, join_with, if◌then◌else◌, ℤ, pos, itoa, atoi, Result, refuse, ◌>>◌,
}

abbrev pub firewalld_services_dir : Bytes
firewalld_services_dir = codes "/etc/firewalld/services"

abbrev pub firewalld_service_name : Bytes → Bytes → Bytes
firewalld_service_name ns id = ns ++ (b'-' ∷ id)

-- `filepath.Join(firewalldServicesDir, svc+".xml")`.
abbrev pub service_path : Bytes → Bytes
service_path svc = clean (firewalld_services_dir ++ (b'/' ∷ (svc ++ codes ".xml")))

unfoldable pub firewalld_validate_rule : Rule → Result FirewallError (Unit {0})
unfolding equal
firewalld_validate_rule rule =
    refuse (not rule.allow) invalid_rule
    >> refuse (not (is_empty rule.source)) invalid_rule
    >> refuse (not (is_empty rule.dest)) invalid_rule
    >> refuse (not (is_concrete rule.protocol)) invalid_rule
    >> refuse (not (is_positive rule.port)) invalid_rule

abbrev pub port_mark : Bytes
port_mark = codes "port port=\""

abbrev pub protocol_mark : Bytes
protocol_mark = codes "protocol=\""

abbrev pub port_line : Rule → Bytes
port_line rule =
    codes "  <"
    ++ (port_mark
        ++ (itoa rule.port ++ (codes "\" " ++ (protocol_mark ++ (rule.protocol ++ codes "\"/>")))))

unfoldable pub firewalld_service_xml : Bytes → Rule → Bytes
unfolding itoa
firewalld_service_xml ns rule = join_with (10 ∷ []) (
    codes "<?xml version=\"1.0\" encoding=\"utf-8\"?>"
    ∷ codes "<service>"
    ∷ (codes "  <short>" ++ (firewalld_service_name ns rule.id ++ codes "</short>"))
    ∷ (codes "  <description>" ++ (ns ++ codes " managed rule</description>"))
    ∷ port_line rule
    ∷ codes "</service>"
    ∷ []
    ∷ [])

abbrev of_prefix : Option Bytes → List Bytes → List Bytes
of_prefix none ids = ids
of_prefix (some id) ids = id ∷ ids

abbrev pub with_prefix : Bytes → List Bytes → List Bytes
with_prefix prefix [] = []
with_prefix prefix (f ∷ fs) = of_prefix (cut_prefix prefix f) (with_prefix prefix fs)

-- `firewalldFilterNamespaceServices`.
unfoldable pub firewalld_filter_namespace_services : Bytes → Bytes → List Bytes
unfolding fields
firewalld_filter_namespace_services out ns = with_prefix (ns ++ (b'-' ∷ [])) (fields out)

abbrev pub first_part : Option (Bytes × Bytes) → Option Bytes
first_part none = none
first_part (some ([], after)) = none
first_part (some (c ∷ value, after)) = some (c ∷ value)

-- The text up to the next quote, if there is any.
abbrev pub up_to_quote : Option Bytes → Option Bytes
up_to_quote none = none
up_to_quote (some rest) = first_part (cut_at 34 rest)

abbrev pub int_or_zero : Option ℤ → ℤ
int_or_zero none = pos 0
int_or_zero (some p) = p

abbrev pub port_value : Option Bytes → ℤ
port_value none = pos 0
port_value (some digits) = int_or_zero (atoi digits)

abbrev pub text_value : Option Bytes → Bytes
text_value none = []
text_value (some value) = value

abbrev pub rule_of : Bytes → ℤ → Bytes → Option Rule
rule_of id port protocol =
    if is_zero port || is_empty protocol
    then none
    else some
        (record { id = id; allow = true; protocol = protocol; port = port; source = []; dest = [] })

abbrev pub rule_in : Bytes → Option Bytes → Option Rule
rule_in id none = none
rule_in id (some body) =
    rule_of id (port_value (up_to_quote (after_first port_mark body)))
      (text_value (up_to_quote (after_first protocol_mark body)))

-- `firewalldReadServiceRule`, with `readFile`.
unfoldable pub firewalld_read_service_rule : (Bytes → Option Bytes) → Bytes → Bytes → Option Rule
unfolding atoi
firewalld_read_service_rule read_file ns id =
    rule_in id (read_file (service_path (firewalld_service_name ns id)))
