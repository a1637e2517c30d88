-- ===== src/Firewall/Nftables/Listing.antt =====
-- sys/firewall/nftables.go: what `nft -j list table` prints. The decoding of its parts by package
-- encoding/json is an argument.
use power_manage_sdk.Firewall.{FirewallError, bad_listing, Rule, protocol_any}
use power_manage_sdk.Prelude.{
  Bool, true, false, Option, none, some, List, [], ◌∷◌, ◌++◌, Bytes, codes, equal, is_empty,
  if◌then◌else◌, ℤ, pos, itoa, Result, ok, err,
}

-- `nftRuleObject`, as far as it is read; the elements of its expression are still raw.
pub record NftRuleObject (Raw : Type 0) : Type 0 where
  pub handle : ℤ
  pub comment : Bytes
  pub expr : List Raw

-- The `match` of an expression: the protocol and field of its payload, and the raw right side.
pub record Match (Raw : Type 0) : Type 0 where
  pub payload : Option (Bytes × Bytes)
  pub right : Raw

-- `json.Unmarshal` into each of the shapes; `none` is its error. An item of the listing that is no
-- rule is `none`. `verdict` says which of `accept` and `drop` is there.
pub record Json : Type 1 where
  pub Raw : Type 0
  pub listing : Bytes → Option (List (Option (NftRuleObject Raw)))
  pub verdict : Raw → Option (Bool × Bool)
  pub match : Raw → Option (Match Raw)
  pub int : Raw → Option ℤ
  pub string : Raw → Option Bytes
  pub prefix : Raw → Option (Bytes × ℤ)

module _ (json : Json) where
  abbrev decode_prefix : Option (Bytes × ℤ) → Bytes
  decode_prefix none = []
  decode_prefix (some (addr, len)) = addr ++ (b'/' ∷ itoa len)

  abbrev decode_string : Json.Raw json → Option Bytes → Bytes
  decode_string raw (some bare) = bare
  decode_string raw none = decode_prefix (json.prefix raw)

  -- `nftDecodeAddr`.
  abbrev pub nft_decode_addr : json.Raw → Bytes
  nft_decode_addr raw = decode_string raw (json.string raw)

  abbrev int_or_zero : Option ℤ → ℤ
  int_or_zero none = pos 0
  int_or_zero (some n) = n

  abbrev apply_verdict : Option (Bool × Bool) → Rule → Rule
  apply_verdict (some (true, _)) rule = record rule { allow = true }
  apply_verdict (some (false, true)) rule = record rule { allow = false }
  apply_verdict _ rule = rule

  abbrev apply_payload : Bytes → Bytes → json.Raw → Rule → Rule
  apply_payload protocol field right rule =
      if equal field (codes "dport")
      then record rule { protocol = protocol; port = int_or_zero (json.int right) }
      else if equal field (codes "saddr")
      then record rule { source = nft_decode_addr right }
      else if equal field (codes "daddr")
      then record rule { dest = nft_decode_addr right }
      else rule

  abbrev apply_match : Option (Match json.Raw) → Rule → Rule
  apply_match none rule = rule
  apply_match (some m) rule = elim (m.payload) [
    | none ↦ rule
    | some (protocol, field) ↦ apply_payload protocol field m.right rule
  ]

  -- `applyExprToRule`.
  unfoldable pub apply_expr_to_rule : List json.Raw → Rule → Rule
  unfolding equal
  apply_expr_to_rule [] rule = rule
  apply_expr_to_rule (e ∷ es) rule =
      apply_expr_to_rule es (apply_match (json.match e) (apply_verdict (json.verdict e) rule))

  abbrev pub bare_rule : Bytes → Rule
  bare_rule id = record {
    id = id;
    allow = false;
    protocol = protocol_any;
    port = pos 0;
    source = [];
    dest = [];
  }

  -- The loop of nftParseRules.
  abbrev pub rules_of : List (Option (NftRuleObject json.Raw)) → List Rule
  rules_of [] = []
  rules_of (none ∷ items) = rules_of items
  rules_of (some object ∷ items) =
      let rest = rules_of items in
      if is_empty object.comment
      then rest
      else apply_expr_to_rule object.expr (bare_rule object.comment) ∷ rest

  abbrev parsed_rules :
      Option (List (Option (NftRuleObject json.Raw))) → Result FirewallError (List Rule)
  parsed_rules none = err bad_listing
  parsed_rules (some items) = ok (rules_of items)

  -- `nftParseRules`.
  unfoldable pub nft_parse_rules : Bytes → Result FirewallError (List Rule)
  nft_parse_rules raw = if is_empty raw then ok [] else parsed_rules (json.listing raw)

  -- The loop of nftFindRuleHandle.
  abbrev pub handle_of : Bytes → List (Option (NftRuleObject json.Raw)) → Option ℤ
  handle_of id [] = none
  handle_of id (none ∷ items) = handle_of id items
  handle_of id (some object ∷ items) =
      let rest = handle_of id items in if equal object.comment id then some object.handle else rest

  abbrev handle_in : Bytes → Option (List (Option (NftRuleObject json.Raw))) → Option ℤ
  handle_in id none = none
  handle_in id (some items) = handle_of id items

  -- `nftFindRuleHandle`.
  unfoldable pub nft_find_rule_handle : Bytes → Bytes → Option ℤ
  nft_find_rule_handle raw id = if is_empty raw then none else handle_in id (json.listing raw)
