-- ===== src/Firewall/Ufw/Operands.antt =====
-- What ufw is given for a rule: no argument that it takes for an option.
use power_manage_sdk.Firewall.{
  Rule, Addresses, validate_rule, validate_addr, validate_namespace, validate_protocol,
  namespace_re, is_positive, is_some, protocol_tcp, protocol_udp,
}
use power_manage_sdk.Firewall.Ufw.Args.{
  or_any, port_args, protocol_args, scope_args, ufw_build_add_args,
}
use power_manage_sdk.Firewall.Ufw.Status.{ufw_comment_identity}
use power_manage_sdk.Prelude.{
  Bool, true, false, ◌||◌, ◌≡◌, refl, ap, ◌∙◌, arith, List, [], ◌∷◌, ◌++◌, Bytes, codes, has_prefix,
  equal, equal_iff, any, all, any-append, ℤ, pos, negsuc, itoa, append-nil, decimal_cons,
  all-decimal, is_digit, ok, matches_class, or-eq-true, inl, inr, Bool-cases,
}

abbrev pub is_option : Bytes → Bool
is_option arg = has_prefix (codes "-") arg

-- What package net documents of its parsers: an address begins with a digit, a letter or a colon.
abbrev pub TakesNoOption : Addresses → Type 0
TakesNoOption net =
    (addr : Bytes)
    → (is_some (net.parse_cidr addr) || is_some (net.parse_ip addr)) ≡ true
    → is_option addr ≡ false

itoa-is_option :
    (port : ℤ) (rest : Bytes) → is_positive port ≡ true → is_option (itoa port ++ rest) ≡ false
unfolding itoa has_prefix
itoa-is_option (negsuc n) rest h = cc
itoa-is_option (pos n) rest h =
    let (d, ds, e) = decimal_cons n in
    let digits : all is_digit (d ∷ ds) ≡ true = rw e at (all-decimal n) in
    ap (λ (t : Bytes). has_prefix (codes "-") (t ++ rest)) e ∙ ground arith

address-is_option :
    (net : Addresses) (addr : Bytes)
    → TakesNoOption net
    → validate_addr net addr ≡ ok tt
    → is_option (or_any addr) ≡ false
unfolding validate_addr has_prefix
address-is_option net [] no_option valid = refl
address-is_option net (c ∷ addr) no_option valid = no_option (c ∷ addr) (ground arith)

identity-is_option :
    (ns id : Bytes) → validate_namespace ns ≡ ok tt → is_option (ufw_comment_identity ns id) ≡ false
unfolding validate_namespace namespace_re matches_class has_prefix
identity-is_option [] id valid = cc
identity-is_option (c ∷ ns) id valid = ground arith

protocol-is_option : (p : Bytes) → validate_protocol p ≡ ok tt → is_option p ≡ false
unfolding validate_protocol has_prefix
protocol-is_option p valid =
    let concrete_or_any : ((equal p protocol_tcp || equal p protocol_udp) || equal p []) ≡ true =
      ground arith in
    elim (or-eq-true (equal p protocol_tcp || equal p protocol_udp) (equal p []) concrete_or_any) [
      | inr any_protocol ↦ rw ((equal_iff p []).0 any_protocol) refl
      | inl h ↦ elim (or-eq-true (equal p protocol_tcp) (equal p protocol_udp) h) [
        | inl tcp ↦ rw ((equal_iff p protocol_tcp).0 tcp) refl
        | inr udp ↦ rw ((equal_iff p protocol_udp).0 udp) refl
      ]
    ]

port-is_option : (port : ℤ) → any is_option (port_args port) ≡ false
unfolding has_prefix
port-is_option port = elim (Bool-cases (is_positive port)) [
  | inr none_given ↦ rw none_given refl
  | inl positive ↦
      let digits = itoa-is_option port [] positive in
      let same = append-nil (itoa port) in rw positive (ground (arith, ap is_option same))
]

protocol_args-is_option :
    (p : Bytes) → validate_protocol p ≡ ok tt → any is_option (protocol_args p) ≡ false
unfolding has_prefix
protocol_args-is_option p valid = ground (arith, protocol-is_option p valid)

scope_args-is_option :
    (net : Addresses) (rule : Rule)
    → TakesNoOption net
    → validate_rule net rule ≡ ok tt
    → any is_option (scope_args rule) ≡ false
unfolding validate_rule has_prefix
scope_args-is_option net rule no_option valid =
    let source = address-is_option net rule.source no_option (ground arith) in
    let dest = address-is_option net rule.dest no_option (ground arith) in
    let protocol : validate_protocol rule.protocol ≡ ok tt = ground arith in
    let split = any-append is_option (port_args rule.port) (protocol_args rule.protocol) in
    ground (
      arith,
      source,
      dest,
      split,
      port-is_option rule.port,
      protocol_args-is_option rule.protocol protocol,
      protocol-is_option rule.protocol protocol,
      itoa-is_option rule.port (b'/' ∷ rule.protocol),
    )

-- No argument of the command that adds a rule begins with a dash.
pub ufw_build_add_args-is_option :
    (net : Addresses) (ns : Bytes) (rule : Rule) (args : List Bytes)
    → TakesNoOption net
    → validate_namespace ns ≡ ok tt
    → validate_rule net rule ≡ ok tt
    → ufw_build_add_args ns rule ≡ ok args
    → any is_option args ≡ false
unfolding ufw_build_add_args has_prefix
ufw_build_add_args-is_option net ns rule args no_option named valid built =
    let scope = scope_args-is_option net rule no_option valid in
    let identity = identity-is_option ns rule.id named in
    let ending = codes "comment" ∷ ufw_comment_identity ns rule.id ∷ [] in
    let split = any-append is_option (scope_args rule) ending in
    ground (arith, scope, identity, split)
