-- ===== src/Firewall/Nftables/Script.antt =====
-- sys/firewall/nftables.go: the script that adds a rule.
use power_manage_sdk.Firewall.{
  FirewallError, invalid_rule, Rule, Addresses, is_positive, is_concrete,
}
use power_manage_sdk.Prelude.{
  Bool, not, ◌&&◌, Option, none, some, List, [], ◌∷◌, ◌++◌, Bytes, codes, equal, is_empty,
  if◌then◌else◌, ℤ, itoa, join_with, Result, ok, err, refuse, ◌>>=◌, ◌>>◌,
}

abbrev pub nft_family : Bytes
nft_family = codes "inet"

abbrev pub nft_chain : Bytes
nft_chain = codes "input"

abbrev pub nft_table_name : Bytes → Bytes
nft_table_name ns = ns ++ codes "_filter"

abbrev pub family_of : Bool → Bytes
family_of four = if four then codes "ip" else codes "ip6"

abbrev pub family_by : Option Bool → Option Bool → Result FirewallError Bytes
family_by (some four) _ = ok (family_of four)
family_by none (some four) = ok (family_of four)
family_by none none = err invalid_rule

unfoldable pub nft_address_family : Addresses → Bytes → Result FirewallError Bytes
nft_address_family net addr = family_by (net.parse_cidr addr) (net.parse_ip addr)

-- The match on the source or the destination, with its family; empty where the rule has no address.
abbrev pub match_parts : Addresses → Bytes → Bytes → Result FirewallError (Bytes × List Bytes)
match_parts net field [] = ok ([], [])
match_parts net field (c ∷ addr) =
    nft_address_family net (c ∷ addr) >>= λ family. ok (family, family ∷ field ∷ (c ∷ addr) ∷ [])

abbrev pub protocol_parts : Rule → List Bytes
protocol_parts rule =
    if is_concrete rule.protocol
    then rule.protocol ∷ (if is_positive rule.port then codes "dport" ∷ itoa rule.port ∷ [] else [])
    else []

abbrev pub quoted : Bytes → Bytes
quoted s = 34 ∷ (s ++ (34 ∷ []))

abbrev pub rule_parts : Bytes → Rule → List Bytes → List Bytes → List Bytes
rule_parts ns rule source dest =
    (codes "add rule" ∷ nft_family ∷ nft_table_name ns ∷ nft_chain ∷ [])
    ++ (source
        ++ (dest
            ++ (protocol_parts rule
                ++ ((if rule.allow then codes "accept" else codes "drop")
                    ∷ codes "comment"
                    ∷ quoted rule.id
                    ∷ []))))

abbrev pub add_table : Bytes → Bytes
add_table ns = codes "add table " ++ (nft_family ++ (32 ∷ nft_table_name ns))

abbrev pub add_chain : Bytes → Bytes
add_chain ns =
    codes "add chain "
    ++ (nft_family
        ++ (32
            ∷ (nft_table_name ns
                ++ (32
                    ∷ (nft_chain
                        ++ codes " { type filter hook input priority 0; policy accept; }")))))

abbrev pub delete_rule : Bytes → ℤ → Bytes
delete_rule ns handle =
    codes "delete rule "
    ++ (nft_family
        ++ (32 ∷ (nft_table_name ns ++ (32 ∷ (nft_chain ++ (codes " handle " ++ itoa handle))))))

abbrev pub with_newline : Bytes → Bytes
with_newline line = line ++ (10 ∷ [])

abbrev pub mixed : Bytes → Bytes → Bool
mixed source dest = not (is_empty source) && (not (is_empty dest) && not (equal source dest))

abbrev pub script_of : Bytes → Rule → ℤ → List Bytes → List Bytes → Bytes
script_of ns rule handle source dest =
    with_newline (add_table ns)
    ++ (with_newline (add_chain ns)
        ++ ((if is_positive handle then with_newline (delete_rule ns handle) else [])
            ++ with_newline (join_with (32 ∷ []) (rule_parts ns rule source dest))))

abbrev pub with_dest :
    Bytes → Rule → ℤ → Bytes × List Bytes → Bytes × List Bytes → Result FirewallError Bytes
with_dest ns rule handle source dest =
    refuse (mixed source.0 dest.0) invalid_rule >> ok (script_of ns rule handle source.1 dest.1)

abbrev pub with_source :
    Addresses → Bytes → Rule → ℤ → Bytes × List Bytes → Result FirewallError Bytes
with_source net ns rule handle source =
    match_parts net (codes "daddr") rule.dest >>= with_dest ns rule handle source

-- `nftBuildApplyScriptStrict`.
unfoldable pub nft_build_apply_script_strict :
    Addresses → Bytes → Rule → ℤ → Result FirewallError Bytes
nft_build_apply_script_strict net ns rule handle =
    refuse (is_positive rule.port && is_empty rule.protocol) invalid_rule
    >> (match_parts net (codes "saddr") rule.source >>= with_source net ns rule handle)
