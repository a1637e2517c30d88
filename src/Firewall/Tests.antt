-- ===== src/Firewall/Tests.antt =====
-- Rules, listings and hosts.
use power_manage_sdk.Firewall.{
  Rule, Addresses, nftables, ufw, unknown, new, detect, validate_rule, validate_rule_id, rule_id_re,
  validate_port, validate_protocol, validate_addr, validate_allow_scope, validate_namespace,
  namespace_re, invalid_rule, invalid_namespace, unknown_backend, protocol_tcp, protocol_any,
}
use power_manage_sdk.Exec.Host.{Runner}
use power_manage_sdk.Firewall.Ufw as Ufw
use power_manage_sdk.Firewall.Ufw.Status.{
  status_line, ufw_parse_to_column, star, plus, lazy_star, lazy_plus, status_ways,
}
use power_manage_sdk.Firewall.Ufw.Args.{ufw_validate_rule, ufw_build_add_args}
use power_manage_sdk.Firewall.Ufw.Operands.{TakesNoOption, is_option, ufw_build_add_args-is_option}
use power_manage_sdk.Firewall.Firewalld as Firewalld
use power_manage_sdk.Firewall.Firewalld.{Files}
use power_manage_sdk.Firewall.Firewalld.Service.{
  firewalld_validate_rule, firewalld_service_xml, firewalld_filter_namespace_services,
  firewalld_read_service_rule,
}
use power_manage_sdk.Firewall.Firewalld.ReadBack.{firewalld_read_service_rule-firewalld_service_xml}
use power_manage_sdk.Firewall.Firewalld.Namespaces.{
  service_names, firewalld_filter_namespace_services-service_names,
}
use power_manage_sdk.Firewall.Nftables as Nftables
use power_manage_sdk.Firewall.Nftables.Listing.{Json}
use power_manage_sdk.Firewall.Nftables.Plain.{TakesAddresses, is_plain, rule_words, bare_words}
use power_manage_sdk.Firewall.Nftables.Script.{
  nft_build_apply_script_strict, nft_address_family, match_parts,
}
use power_manage_sdk.Firewall.Nftables.Lines.{
  rule_line, script_lines, nft_build_apply_script_strict-lines,
}
use power_manage_sdk.Prelude.{
  true, false, ◌||◌, none, some, List, [], ◌∷◌, ◌++◌, Bytes, codes, equal, equal_iff, any, all,
  has_prefix, ◌≡◌, refl, arith, pos, ok, err, if◌then◌else◌, atoi, itoa, decimal, trim_space,
  fields, matches_class, split_on,
}

ufw_line :
    status_line
      (codes "[ 1] 22/tcp                     ALLOW IN    10.0.0.0/8                 # pm:ssh  ")
    ≡ some (record {
      number = codes "1";
      to = codes "22/tcp";
      action = codes "ALLOW";
      from = codes "10.0.0.0/8";
      comment = codes "pm:ssh";
    })
unfolding status_line status_ways star plus lazy_star lazy_plus
ufw_line = refl

-- A rule that the firewall shows for IPv6 is not matched: its column has a space.
ufw_line_six : status_line (codes "[ 2] 22/tcp (v6) ALLOW IN Anywhere (v6) # pm:ssh") ≡ none
unfolding status_line status_ways star plus lazy_star lazy_plus
ufw_line_six = refl

-- Parsers that know one IPv4 address and one network.
abbrev net : Addresses
net = record {
  parse_cidr = λ s. if equal s (codes "10.0.0.0/8") then some true else none;
  parse_ip = λ s. if equal s (codes "10.0.0.1") then some true else none;
}

abbrev web : Rule
web = record {
  id = codes "port-allow-443";
  allow = true;
  protocol = protocol_tcp;
  port = pos 443;
  source = [];
  dest = [];
}

abbrev scoped : Rule
scoped = record web { source = codes "10.0.0.0/8"; allow = false }

abbrev ns : Bytes
ns = codes "port"

ns_valid : validate_namespace ns ≡ ok tt
unfolding validate_namespace namespace_re matches_class
ns_valid = refl

id_valid : validate_rule_id (codes "port-allow-443") ≡ ok tt
unfolding validate_rule_id rule_id_re matches_class
id_valid = refl

web_valid : validate_rule net web ≡ ok tt
unfolding validate_rule validate_rule_id rule_id_re matches_class validate_port validate_protocol
    validate_addr validate_allow_scope equal
web_valid = refl

scoped_valid : validate_rule net scoped ≡ ok tt
unfolding validate_rule validate_rule_id rule_id_re matches_class validate_port validate_protocol
    validate_addr validate_allow_scope equal
scoped_valid = refl

everything_refused :
    validate_rule net (record web { protocol = protocol_any; port = pos 0 }) ≡ err invalid_rule
unfolding validate_rule validate_rule_id rule_id_re matches_class validate_port validate_protocol
    validate_addr validate_allow_scope equal
everything_refused = refl

no_port_refused : validate_rule net (record web { port = pos 65536 }) ≡ err invalid_rule
unfolding validate_rule validate_rule_id rule_id_re matches_class validate_port
no_port_refused = refl

dashed_namespace : new nftables (codes "a-b") true true ≡ err invalid_namespace
unfolding new validate_namespace namespace_re matches_class
dashed_namespace = refl

no_backend : new (unknown (pos 7)) ns true true ≡ err unknown_backend
unfolding new validate_namespace namespace_re matches_class
no_backend = refl

two_backends :
    detect (λ tool. equal tool (codes "ufw") || equal tool (codes "nft")) ≡ nftables ∷ ufw ∷ []
unfolding detect equal
two_backends = refl

network_lost : ufw_parse_to_column (codes "10.0.0.0/8") web ≡ web
unfolding ufw_parse_to_column trim_space equal atoi
network_lost = refl

web_in_scope : firewalld_validate_rule web ≡ ok tt
unfolding firewalld_validate_rule equal
web_in_scope = refl

firewalld_read_service_rule-firewalld_service_xml_example :
    firewalld_read_service_rule (λ _. some (firewalld_service_xml ns web)) ns web.id ≡ some web
firewalld_read_service_rule-firewalld_service_xml_example =
    firewalld_read_service_rule-firewalld_service_xml net (λ _. some (firewalld_service_xml ns web))
      ns web ns_valid web_valid web_in_scope refl

abbrev enabled : List (Bytes × Bytes)
enabled = (ns, codes "a-1") ∷ (codes "web", codes "port-2") ∷ (ns, codes "b") ∷ []

web_named : validate_namespace (codes "web") ≡ ok tt
unfolding validate_namespace namespace_re matches_class
web_named = refl

listed : fields (codes "port-a-1 web-port-2  port-b\n") ≡ service_names enabled
unfolding fields
listed = refl

firewalld_filter_namespace_services-service_names_example :
    firewalld_filter_namespace_services (codes "port-a-1 web-port-2  port-b\n") ns
    ≡ codes "a-1" ∷ codes "b" ∷ []
unfolding equal
firewalld_filter_namespace_services-service_names_example =
    firewalld_filter_namespace_services-service_names ns (codes "port-a-1 web-port-2  port-b\n")
      enabled ns_valid (ns_valid, (web_named, (ns_valid, tt))) listed

net-TakesAddresses : TakesAddresses net
unfolding equal
net-TakesAddresses addr h =
    ground (arith, equal_iff addr (codes "10.0.0.0/8"), equal_iff addr (codes "10.0.0.1"))

net-TakesNoOption : TakesNoOption net
unfolding has_prefix
net-TakesNoOption addr h =
    ground (arith, equal_iff addr (codes "10.0.0.0/8"), equal_iff addr (codes "10.0.0.1"))

ufw_args :
    ufw_build_add_args ns scoped
    ≡ ok (
        codes "deny"
        ∷ codes "from"
        ∷ codes "10.0.0.0/8"
        ∷ codes "to"
        ∷ codes "any"
        ∷ codes "port"
        ∷ codes "443"
        ∷ codes "proto"
        ∷ codes "tcp"
        ∷ codes "comment"
        ∷ codes "port:port-allow-443"
        ∷ [])
unfolding ufw_build_add_args ufw_validate_rule itoa decimal equal
ufw_args = refl

ufw_build_add_args-is_option_example :
    any is_option (
      codes "deny"
      ∷ codes "from"
      ∷ codes "10.0.0.0/8"
      ∷ codes "to"
      ∷ codes "any"
      ∷ codes "port"
      ∷ codes "443"
      ∷ codes "proto"
      ∷ codes "tcp"
      ∷ codes "comment"
      ∷ codes "port:port-allow-443"
      ∷ [])
    ≡ false
ufw_build_add_args-is_option_example =
    ufw_build_add_args-is_option net ns scoped
      (codes "deny"
        ∷ codes "from"
        ∷ codes "10.0.0.0/8"
        ∷ codes "to"
        ∷ codes "any"
        ∷ codes "port"
        ∷ codes "443"
        ∷ codes "proto"
        ∷ codes "tcp"
        ∷ codes "comment"
        ∷ codes "port:port-allow-443"
        ∷ [])
      net-TakesNoOption ns_valid scoped_valid ufw_args

abbrev script : Bytes
script =
    codes "add table inet port_filter\n"
    ++ codes
        "add chain inet port_filter input { type filter hook input priority 0; policy accept; }\n"
    ++ codes "delete rule inet port_filter input handle 12\n"
    ++ codes
        "add rule inet port_filter input ip saddr 10.0.0.0/8 tcp dport 443 drop comment \"port-allow-443\"\n"

nft_script : nft_build_apply_script_strict net ns scoped (pos 12) ≡ ok script
unfolding nft_build_apply_script_strict nft_address_family itoa decimal equal
nft_script = refl

nft_build_apply_script_strict-lines_example :
    (source : Bytes × List Bytes) × (dest : Bytes × List Bytes) × (match_parts net
        (codes "saddr")
        scoped.source
      ≡ ok source)
    × (match_parts net (codes "daddr") scoped.dest ≡ ok dest)
    × (split_on 10 script ≡ script_lines ns (pos 12) (rule_line ns scoped source.1 dest.1))
    × (split_on 32 (rule_line ns scoped source.1 dest.1) ≡ rule_words ns scoped source.1 dest.1)
    × (all (all is_plain) (bare_words ns scoped source.1 dest.1) ≡ true)
nft_build_apply_script_strict-lines_example =
    nft_build_apply_script_strict-lines net ns scoped (pos 12) script net-TakesAddresses ns_valid
      id_valid nft_script

-- A host that only counts what is asked of it, and runs nothing.
abbrev idle : Runner (List Bytes)
idle w c = (w, none)

abbrev no_files : Files (List Bytes)
no_files = record {
  write_file = λ w path content. (w, false);
  remove = λ w path. (w, false);
  read_file = λ w path. none;
}

abbrev no_json : Json
no_json = record {
  Raw = Bytes;
  listing = λ raw. none;
  verdict = λ raw. none;
  match = λ raw. none;
  int = λ raw. none;
  string = λ raw. none;
  prefix = λ raw. none;
}

abbrev web_script : Bytes
web_script =
    codes "add table inet port_filter\n"
    ++ codes
        "add chain inet port_filter input { type filter hook input priority 0; policy accept; }\n"
    ++ codes "add rule inet port_filter input tcp dport 443 accept comment \"port-allow-443\"\n"

abbrev web_args : List Bytes
web_args = codes "allow" ∷ codes "443/tcp" ∷ codes "comment" ∷ codes "port:port-allow-443" ∷ []
