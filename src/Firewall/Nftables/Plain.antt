-- ===== src/Firewall/Nftables/Plain.antt =====
-- What the words of the script for nft are written with.
use power_manage_sdk.Firewall.{
  Rule, Addresses, validate_rule_id, validate_namespace, namespace_re, rule_id_re, is_lower,
  is_decimal, namespace_char, rule_id_char, is_concrete, is_positive, is_some, protocol_tcp,
  protocol_udp,
}
use power_manage_sdk.Firewall.Nftables.Script.{
  nft_address_family, match_parts, protocol_parts, quoted, rule_parts, family_by, nft_family,
  nft_table_name, nft_chain,
}
use power_manage_sdk.Prelude.{
  ℕ, Bool, true, not, ◌&&◌, ◌||◌, ◌==◌, leb, ◌≡◌, refl, arith, List, [], ◌∷◌, ◌++◌, Bytes, codes,
  drop, equal, equal_iff, all, all-append, all_mono, if◌then◌else◌, ℤ, pos, negsuc, itoa, decimal,
  all-decimal, is_digit, ok, >>=-eq-ok, ok_injective, matches_class-all, or-eq-true, inl, inr,
  Option,
}

abbrev is_upper : ℕ → Bool
is_upper c = leb b'A' c && leb c b'Z'

-- A byte that stands for itself in a word of nft: no blank of any kind, and none of the quotes,
-- braces, semicolons, commas and other marks of its language.
abbrev pub is_plain : ℕ → Bool
is_plain c =
    is_lower c
    || is_upper c
    || is_decimal c
    || c == b'_'
    || c == b'-'
    || c == b'.'
    || c == b':'
    || c == b'/'

-- Neither a blank nor a line's end.
abbrev pub in_word : ℕ → Bool
in_word c = not (c == 10) && not (c == 32)

abbrev pub in_line : ℕ → Bool
in_line c = not (c == 10)

abbrev pub address_char : ℕ → Bool
address_char c =
    is_decimal c
    || (leb b'a' c && leb c b'f')
    || (leb b'A' c && leb c b'F')
    || c == b'.'
    || c == b':'
    || c == b'/'

-- What package net documents of its parsers: an address is dotted decimal or colons and
-- hexadecimal digits, a network has a slash and a length after it.
abbrev pub TakesAddresses : Addresses → Type 0
TakesAddresses net =
    (addr : Bytes)
    → (is_some (net.parse_cidr addr) || is_some (net.parse_ip addr)) ≡ true
    → all address_char addr ≡ true

pub namespace-is_plain : (ns : Bytes) → validate_namespace ns ≡ ok tt → all is_plain ns ≡ true
unfolding validate_namespace namespace_re
namespace-is_plain ns named =
    all_mono namespace_char is_plain ns (λ c h. ground arith)
      (matches_class-all is_lower namespace_char 30 ns (λ c h. ground arith) (ground arith))

pub rule_id-is_plain : (id : Bytes) → validate_rule_id id ≡ ok tt → all is_plain id ≡ true
unfolding validate_rule_id rule_id_re
rule_id-is_plain id valid =
    all_mono rule_id_char is_plain id (λ c h. ground arith)
      (matches_class-all (λ c. is_lower c || is_decimal c) rule_id_char 62 id (λ c h. ground arith)
        (ground arith))

pub itoa-is_plain : (port : ℤ) → is_positive port ≡ true → all is_plain (itoa port) ≡ true
unfolding itoa
itoa-is_plain (negsuc n) h = cc
itoa-is_plain (pos n) h =
    all_mono is_digit is_plain (decimal n) (λ c g. ground arith) (all-decimal n)

pub family-is_plain :
    (cidr ip : Option Bool) (family : Bytes)
    → family_by cidr ip ≡ ok family
    → (is_some cidr || is_some ip ≡ true) × (all is_plain family ≡ true)
family-is_plain cidr ip family h = ground arith

pub match_parts-is_plain :
    (net : Addresses) (field addr family : Bytes) (parts : List Bytes)
    → TakesAddresses net
    → all is_plain field ≡ true
    → match_parts net field addr ≡ ok (family, parts)
    → all (all is_plain) parts ≡ true
unfolding nft_address_family
match_parts-is_plain net field [] family parts addresses f h = ground arith
match_parts-is_plain net field (c ∷ addr) family parts addresses f h =
    let (found, e, more) =
      >>=-eq-ok (nft_address_family net (c ∷ addr))
        (λ (fam : Bytes). ok (fam, fam ∷ field ∷ (c ∷ addr) ∷ [])) h in
    let (accepted, plain) =
      family-is_plain (net.parse_cidr (c ∷ addr)) (net.parse_ip (c ∷ addr)) found e in
    let same = ok_injective more in
    ground (
      arith,
      accepted,
      plain,
      same,
      all_mono address_char is_plain (c ∷ addr) (λ d g. ground arith)
          (addresses (c ∷ addr) (ground (arith, accepted))),
    )

pub concrete-is_plain : (p : Bytes) → is_concrete p ≡ true → all is_plain p ≡ true
concrete-is_plain p h = elim (or-eq-true (equal p protocol_tcp) (equal p protocol_udp) h) [
  | inl tcp ↦ rw ((equal_iff p protocol_tcp).0 tcp) refl
  | inr udp ↦ rw ((equal_iff p protocol_udp).0 udp) refl
]

pub protocol_parts-is_plain : (rule : Rule) → all (all is_plain) (protocol_parts rule) ≡ true
protocol_parts-is_plain rule =
    ground (arith, concrete-is_plain rule.protocol, itoa-is_plain rule.port)

-- The words of the added rule, its name without the quotes: "add rule" is two.
abbrev pub bare_words : Bytes → Rule → List Bytes → List Bytes → List Bytes
bare_words ns rule source dest =
    codes "add"
    ∷ codes "rule"
    ∷ nft_family
    ∷ nft_table_name ns
    ∷ nft_chain
    ∷ (source
        ++ (dest
            ++ (protocol_parts rule
                ++ ((if rule.allow then codes "accept" else codes "drop")
                    ∷ codes "comment"
                    ∷ rule.id
                    ∷ []))))

-- The same with the quotes around the name.
abbrev pub rule_words : Bytes → Rule → List Bytes → List Bytes → List Bytes
rule_words ns rule source dest =
    codes "add" ∷ codes "rule" ∷ drop 1 (rule_parts ns rule source dest)

pub bare_words-is_plain :
    (ns : Bytes) (rule : Rule) (source dest : List Bytes)
    → all is_plain ns ≡ true
    → all is_plain rule.id ≡ true
    → all (all is_plain) source ≡ true
    → all (all is_plain) dest ≡ true
    → all (all is_plain) (bare_words ns rule source dest) ≡ true
bare_words-is_plain ns rule source dest n i s d =
    let verdict = if rule.allow then codes "accept" else codes "drop" in
    let last = verdict ∷ codes "comment" ∷ rule.id ∷ [] in
    let tail = protocol_parts rule ++ last in
    ground (
      arith,
      all-append is_plain ns (codes "_filter"),
      all-append (all is_plain) source (dest ++ tail),
      all-append (all is_plain) dest tail,
      all-append (all is_plain) (protocol_parts rule) last,
      protocol_parts-is_plain rule,
      n,
      i,
      s,
      d,
    )

pub plain-in_word : (s : Bytes) → all is_plain s ≡ true → all in_word s ≡ true
plain-in_word s h = all_mono is_plain in_word s (λ c g. ground arith) h

plain-in_words : (ss : List Bytes) → all (all is_plain) ss ≡ true → all (all in_word) ss ≡ true
plain-in_words ss h = all_mono (all is_plain) (all in_word) ss plain-in_word h

pub rule_words-in_word :
    (ns : Bytes) (rule : Rule) (source dest : List Bytes)
    → all is_plain ns ≡ true
    → all is_plain rule.id ≡ true
    → all (all is_plain) source ≡ true
    → all (all is_plain) dest ≡ true
    → all (all in_word) (rule_words ns rule source dest) ≡ true
rule_words-in_word ns rule source dest n i s d =
    let verdict = if rule.allow then codes "accept" else codes "drop" in
    let last = verdict ∷ codes "comment" ∷ quoted rule.id ∷ [] in
    let tail = protocol_parts rule ++ last in
    ground (
      arith,
      all-append in_word ns (codes "_filter"),
      all-append in_word rule.id (34 ∷ []),
      all-append (all in_word) source (dest ++ tail),
      all-append (all in_word) dest tail,
      all-append (all in_word) (protocol_parts rule) last,
      plain-in_words (protocol_parts rule) (protocol_parts-is_plain rule),
      plain-in_word ns n,
      plain-in_word rule.id i,
      plain-in_words source s,
      plain-in_words dest d,
    )
