-- ===== src/Firewall/Firewalld/ReadBack.antt =====
-- A service definition that was written reads back as its rule.
use power_manage_sdk.Prelude.Search.{
  after_first, after_first_skip, after_first_here, clear_token, clear_ended,
}
use power_manage_sdk.Firewall.{
  Rule, Addresses, validate_rule, validate_rule_id, validate_namespace, namespace_re, rule_id_re,
  validate_port, namespace_char, rule_id_char, protocol_tcp, protocol_udp, is_lower, is_decimal,
  is_concrete, is_positive, is_zero,
}
use power_manage_sdk.Firewall.Firewalld.Service.{
  firewalld_service_name, service_path, firewalld_validate_rule, port_mark, protocol_mark,
  firewalld_service_xml, up_to_quote, port_value, text_value, first_part, int_or_zero, rule_of,
  rule_in, firewalld_read_service_rule,
}
use power_manage_sdk.Prelude.{
  ℕ, true, false, ◌||◌, ◌==◌, ◌≡◌, refl, ap, ◌∙◌, arith, Option, some, [], ◌∷◌, ◌++◌, append_assoc,
  Bytes, codes, equal, is_empty, any, all, is_digit, all-decimal, decimal, cut_at-append, ℤ, pos,
  itoa, atoi, atoi-decimal, negsuc, ok, matches_class-all, equal_iff, decimal_cons, ◌<◌, ◌≤◌,
  or-eq-true, inl, inr, is_empty-eq-true, has_prefix, all-lacks,
}

abbrev before_name : Bytes
before_name = codes "<?xml version=\"1.0\" encoding=\"utf-8\"?>\n<service>\n  <short>"

abbrev before_description : Bytes
before_description = codes "</short>\n  <description>"

abbrev after_description : Bytes
after_description = codes " managed rule</description>\n  <"

abbrev ending : Bytes
ending = codes "\"/>\n</service>\n"

abbrev from_port : Rule → Bytes
from_port rule = itoa rule.port ++ (34 ∷ 32 ∷ (protocol_mark ++ (rule.protocol ++ ending)))

abbrev before_port : Bytes → Bytes → Bytes → Bytes
before_port ns id rest =
    before_name
    ++ (ns ++ (b'-' ∷ (id ++ (before_description ++ (ns ++ (after_description ++ rest))))))

xml_layout :
    (ns : Bytes) (rule : Rule)
    → firewalld_service_xml ns rule ≡ before_port ns rule.id (port_mark ++ from_port rule)
unfolding firewalld_service_xml
xml_layout ns rule = simp (append_assoc)

-- A mark with a separator that names do not have does not start in a service's name.
skip_name :
    (sep : ℕ) (w v ns id t : Bytes)
    → any (λ c. c == b'-') w ≡ false
    → any (λ c. c == b'<') w ≡ false
    → has_prefix (w ++ (sep ∷ v)) (b'-' ∷ (id ++ (b'<' ∷ t))) ≡ false
    → (b'-' == sep) ≡ false
    → (b'<' == sep) ≡ false
    → any (λ c. c == sep) ns ≡ false
    → any (λ c. c == sep) id ≡ false
    → after_first (w ++ (sep ∷ v)) (ns ++ (b'-' ∷ (id ++ (b'<' ∷ t))))
      ≡ after_first (w ++ (sep ∷ v)) (b'<' ∷ t)
skip_name sep w v ns id t dash angle here d a in_ns in_id =
    after_first_skip (w ++ (sep ∷ v)) ns (b'-' ∷ (id ++ (b'<' ∷ t)))
      (clear_token sep w v ns b'-' (id ++ (b'<' ∷ t)) dash in_ns d)
    ∙ after_first_skip (w ++ (sep ∷ v)) (b'-' ∷ []) (id ++ (b'<' ∷ t)) (ground (arith, here))
    ∙ after_first_skip (w ++ (sep ∷ v)) id (b'<' ∷ t) (clear_token sep w v id b'<' t angle in_id a)

after_first_port :
    (ns id rest : Bytes)
    → any (λ c. c == 32) ns ≡ false
    → any (λ c. c == 32) id ≡ false
    → after_first port_mark (before_port ns id (port_mark ++ rest)) ≡ some rest
unfolding has_prefix
after_first_port ns id rest in_ns in_id =
    let line = codes "managed rule</description>\n  <" ++ (port_mark ++ rest) in
    let last = 32 ∷ line in
    let middle = codes "/short>\n  <description>" ++ (ns ++ last) in
    let word = codes "port" in
    let value = codes "port=\"" in
    after_first_skip port_mark before_name (ns ++ (b'-' ∷ (id ++ (b'<' ∷ middle)))) refl
    ∙ skip_name 32 word value ns id middle refl refl refl refl refl in_ns in_id
    ∙ after_first_skip port_mark before_description (ns ++ last) refl
    ∙ after_first_skip port_mark ns last (clear_ended 32 word value ns line refl in_ns refl)
    ∙ after_first_skip port_mark after_description (port_mark ++ rest) refl
    ∙ after_first_here port_mark rest

after_first_protocol :
    (ns id digits rest : Bytes)
    → any (λ c. c == b'=') ns ≡ false
    → any (λ c. c == b'=') id ≡ false
    → any (λ c. c == b'=') digits ≡ false
    → after_first protocol_mark
        (before_port ns id (port_mark ++ (digits ++ (34 ∷ 32 ∷ (protocol_mark ++ rest)))))
      ≡ some rest
unfolding has_prefix
after_first_protocol ns id digits rest in_ns in_id in_digits =
    let tail = 32 ∷ (protocol_mark ++ rest) in
    let line = codes "managed rule</description>\n  <" ++ (port_mark ++ (digits ++ (34 ∷ tail))) in
    let middle = codes "/short>\n  <description>" ++ (ns ++ (32 ∷ line)) in
    let word = codes "protocol" in
    let value = codes "\"" in
    after_first_skip protocol_mark before_name (ns ++ (b'-' ∷ (id ++ (b'<' ∷ middle)))) refl
    ∙ skip_name b'=' word value ns id middle refl refl refl refl refl in_ns in_id
    ∙ after_first_skip protocol_mark before_description (ns ++ (32 ∷ line)) refl
    ∙ after_first_skip protocol_mark ns (32 ∷ line)
        (clear_token b'=' word value ns 32 line refl in_ns refl)
    ∙ after_first_skip protocol_mark (after_description ++ port_mark) (digits ++ (34 ∷ tail)) refl
    ∙ after_first_skip protocol_mark digits (34 ∷ tail)
        (clear_token b'=' word value digits 34 tail refl in_digits refl)
    ∙ after_first_skip protocol_mark (34 ∷ 32 ∷ []) (protocol_mark ++ rest) refl
    ∙ after_first_here protocol_mark rest

up_to_quote_cons :
    (c : ℕ) (s rest : Bytes)
    → any (λ b. b == 34) (c ∷ s) ≡ false
    → up_to_quote (some ((c ∷ s) ++ (34 ∷ rest))) ≡ some (c ∷ s)
up_to_quote_cons c s rest h = ap first_part (cut_at-append 34 (c ∷ s) rest h)

-- The port is read back as it was printed.
port_read_back :
    (n : ℕ) (rest : Bytes)
    → n ≤ 65535
    → port_value (up_to_quote (some (decimal n ++ (34 ∷ rest)))) ≡ pos n
port_read_back n rest h =
    let (d, ds, e) = decimal_cons n in
    let lacks : any (λ b. b == 34) (d ∷ ds) ≡ false =
      rw e at (all-lacks is_digit 34 (decimal n) refl (all-decimal n)) in
    let value : atoi (d ∷ ds) ≡ some (pos n) = rw e at (atoi-decimal n (omega arith)) in
    ap (λ (digits : Bytes). port_value (up_to_quote (some (digits ++ (34 ∷ rest))))) e
    ∙ ap port_value (up_to_quote_cons d ds rest lacks)
    ∙ ap int_or_zero value

protocol_read_back :
    (p rest : Bytes) → is_concrete p ≡ true → text_value (up_to_quote (some (p ++ (34 ∷ rest)))) ≡ p
protocol_read_back p rest h = elim (or-eq-true (equal p protocol_tcp) (equal p protocol_udp) h) [
  | inl tcp ↦ rw ((equal_iff p protocol_tcp).0 tcp) refl
  | inr udp ↦ rw ((equal_iff p protocol_udp).0 udp) refl
]

port_shape :
    (port : ℤ)
    → validate_port port ≡ ok tt
    → is_positive port ≡ true
    → (n : ℕ) × (0 < n) × (n ≤ 65535) × (port ≡ pos n)
unfolding validate_port
port_shape (pos n) v p = (n, ground arith, ground arith, refl)
port_shape (negsuc n) v p = cc

-- What the two validators leave of a rule.
accepted_rule :
    (net : Addresses) (rule : Rule)
    → validate_rule net rule ≡ ok tt
    → firewalld_validate_rule rule ≡ ok tt
    → (n : ℕ) × (0 < n)
      × (n ≤ 65535)
      × (rule.port ≡ pos n)
      × (rule_id_re rule.id ≡ true)
      × (is_concrete rule.protocol ≡ true)
      × (rule.allow ≡ true)
      × (rule.source ≡ [])
      × (rule.dest ≡ [])
unfolding validate_rule validate_rule_id firewalld_validate_rule
accepted_rule net rule v f =
    let port : validate_port rule.port ≡ ok tt = ground arith in
    let positive : is_positive rule.port ≡ true = ground arith in
    let (n, above, below, same) = port_shape rule.port port positive in
    (
      n,
      above,
      below,
      same,
      ground arith,
      ground arith,
      ground arith,
      is_empty-eq-true rule.source (ground arith),
      is_empty-eq-true rule.dest (ground arith),
    )

namespace_chars : (ns : Bytes) → validate_namespace ns ≡ ok tt → all namespace_char ns ≡ true
unfolding validate_namespace namespace_re
namespace_chars ns good =
    matches_class-all is_lower namespace_char 30 ns (λ c h. ground arith) (ground arith)

rule_id_chars : (id : Bytes) → rule_id_re id ≡ true → all rule_id_char id ≡ true
unfolding rule_id_re
rule_id_chars id h =
    matches_class-all (λ c. is_lower c || is_decimal c) rule_id_char 62 id (λ c g. ground arith) h

-- Both marks are found where they were written.
read_fields :
    (ns : Bytes) (rule : Rule) (n : ℕ)
    → n ≤ 65535
    → rule.port ≡ pos n
    → is_concrete rule.protocol ≡ true
    → all namespace_char ns ≡ true
    → all rule_id_char rule.id ≡ true
    → (port_value (up_to_quote (after_first port_mark (firewalld_service_xml ns rule))) ≡ pos n)
      × (text_value (up_to_quote (after_first protocol_mark (firewalld_service_xml ns rule)))
          ≡ rule.protocol)
unfolding itoa
read_fields ns rule n below port concrete names ids =
    let lines = codes "/>\n</service>\n" in
    let tail = 32 ∷ (protocol_mark ++ (rule.protocol ++ ending)) in
    let digits : itoa rule.port ≡ decimal n = ap itoa port in
    let xml =
      xml_layout ns rule
      ∙ ap (λ (t : Bytes). before_port ns rule.id (port_mark ++ (t ++ (34 ∷ tail)))) digits in
    (
      ap (λ (t : Bytes). port_value (up_to_quote (after_first port_mark t))) xml
          ∙ ap (λ (t : Option Bytes). port_value (up_to_quote t))
              (after_first_port ns rule.id (decimal n ++ (34 ∷ tail))
                (all-lacks namespace_char 32 ns refl names)
                (all-lacks rule_id_char 32 rule.id refl ids))
          ∙ port_read_back n tail below,
      ap (λ (t : Bytes). text_value (up_to_quote (after_first protocol_mark t))) xml
          ∙ ap (λ (t : Option Bytes). text_value (up_to_quote t))
              (after_first_protocol ns rule.id (decimal n) (rule.protocol ++ ending)
                (all-lacks namespace_char b'=' ns refl names)
                (all-lacks rule_id_char b'=' rule.id refl ids)
                (all-lacks is_digit b'=' (decimal n) refl (all-decimal n)))
          ∙ protocol_read_back rule.protocol lines concrete,
    )

abbrev read_protocol : Bytes → Bytes
read_protocol body = text_value (up_to_quote (after_first protocol_mark body))

rule_of_accepted :
    (rule : Rule) (n : ℕ)
    → 0 < n
    → rule.port ≡ pos n
    → is_concrete rule.protocol ≡ true
    → rule.allow ≡ true
    → rule.source ≡ []
    → rule.dest ≡ []
    → rule_of rule.id (pos n) rule.protocol ≡ some rule
unfolding equal
rule_of_accepted rule n above port concrete allow source dest =
    let kept : (is_zero (pos n) || is_empty rule.protocol) ≡ false = ground arith in rw kept cc

-- The rule that was accepted is read back, whole, from the definition that was written for it.
pub firewalld_read_service_rule-firewalld_service_xml :
    (net : Addresses) (read_file : Bytes → Option Bytes) (ns : Bytes) (rule : Rule)
    → validate_namespace ns ≡ ok tt
    → validate_rule net rule ≡ ok tt
    → firewalld_validate_rule rule ≡ ok tt
    → read_file (service_path (firewalld_service_name ns rule.id))
      ≡ some (firewalld_service_xml ns rule)
    → firewalld_read_service_rule read_file ns rule.id ≡ some rule
unfolding firewalld_read_service_rule
firewalld_read_service_rule-firewalld_service_xml net read_file ns rule good valid scoped written =
    let (n, above, below, port, id, concrete, allow, source, dest) =
      accepted_rule net rule valid scoped in
    let names = namespace_chars ns good in
    let ids = rule_id_chars rule.id id in
    let (port_read, protocol_read) = read_fields ns rule n below port concrete names ids in
    ap (rule_in rule.id) written
    ∙ ap (λ (p : ℤ). rule_of rule.id p (read_protocol (firewalld_service_xml ns rule))) port_read
    ∙ ap (λ (t : Bytes). rule_of rule.id (pos n) t) protocol_read
    ∙ rule_of_accepted rule n above port concrete allow source dest
