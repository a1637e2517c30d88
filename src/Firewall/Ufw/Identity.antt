-- ===== src/Firewall/Ufw/Identity.antt =====
-- Which of the rules that ufw shows is a manager's, and what its columns say of it.
use power_manage_sdk.Firewall.{
  Rule, validate_namespace, namespace_re, namespace_char, is_lower, is_concrete, is_positive,
  protocol_tcp, protocol_udp,
}
use power_manage_sdk.Firewall.Ufw.Status.{
  ufw_comment_identity, ufw_parse_to_column, by_slash, is_anywhere,
}
use power_manage_sdk.Firewall.Ufw.Args.{scope_args}
use power_manage_sdk.Prelude.{
  ℕ, true, false, ◌==◌, ◌≡◌, ◌<◌, refl, sym, ap, ◌∙◌, arith, Option, some, [], ◌∷◌, ◌++◌, Bytes,
  equal, equal_iff, any, any-append, all, all-lacks, all-decimal, is_digit, is_space, cut_at,
  cut_at-append, trim_space, trim_space_none, ℤ, pos, itoa, decimal, atoi, atoi-decimal,
  decimal_cons, ok, matches_class-all, or-eq-true, Option-cases, Bool-cases, inl, inr,
}

namespace_lacks_colon :
    (ns : Bytes) → validate_namespace ns ≡ ok tt → any (λ c. c == b':') ns ≡ false
unfolding validate_namespace namespace_re
namespace_lacks_colon ns good =
    all-lacks namespace_char b':' ns refl
      (matches_class-all is_lower namespace_char 30 ns (λ c h. ground arith) (ground arith))

-- A comment is one manager's, and one rule's of it.
pub ufw_comment_identity-injective :
    (ns other id name : Bytes)
    → validate_namespace ns ≡ ok tt
    → validate_namespace other ≡ ok tt
    → ufw_comment_identity ns id ≡ ufw_comment_identity other name
    → (ns ≡ other) × (id ≡ name)
ufw_comment_identity-injective ns other id name mine theirs same =
    let cuts : ◌≡◌ {A = Option (Bytes × Bytes)} (some (ns, id)) (some (other, name)) =
      sym (cut_at-append b':' ns id (namespace_lacks_colon ns mine))
      ∙ ap (cut_at b':') same
      ∙ cut_at-append b':' other name (namespace_lacks_colon other theirs) in
    (cc, cc)

-- The column of a rule without addresses.
column_of :
    (rule : Rule) (n : ℕ)
    → rule.port ≡ pos n
    → is_positive rule.port ≡ true
    → rule.source ≡ []
    → rule.dest ≡ []
    → scope_args rule ≡ (decimal n ++ (b'/' ∷ rule.protocol)) ∷ []
unfolding itoa
column_of rule n port positive source dest = rw (source, dest, positive, port) refl

no_space : (s : Bytes) → all is_digit s ≡ true → any is_space s ≡ false
no_space [] h = refl
no_space (c ∷ s) h = ground (arith, no_space s)

concrete-no_space : (p : Bytes) → is_concrete p ≡ true → any is_space p ≡ false
concrete-no_space p h = elim (or-eq-true (equal p protocol_tcp) (equal p protocol_udp) h) [
  | inl tcp ↦ rw ((equal_iff p protocol_tcp).0 tcp) refl
  | inr udp ↦ rw ((equal_iff p protocol_udp).0 udp) refl
]

-- A column that begins with a digit and has neither blanks nor a second meaning.
column_parts :
    (n : ℕ) (proto : Bytes)
    → is_concrete proto ≡ true
    → (trim_space (decimal n ++ (b'/' ∷ proto)) ≡ decimal n ++ (b'/' ∷ proto))
      × (cut_at b'/' (decimal n ++ (b'/' ∷ proto)) ≡ some (decimal n, proto))
column_parts n proto concrete =
    let digits = all-decimal n in
    let plain : any is_space (decimal n) ≡ false = no_space (decimal n) digits in
    let word : any is_space proto ≡ false = concrete-no_space proto concrete in
    (
      trim_space_none (decimal n ++ (b'/' ∷ proto))
          (ground (arith, any-append is_space (decimal n) (b'/' ∷ proto))),
      cut_at-append b'/' (decimal n) proto (all-lacks is_digit b'/' (decimal n) refl digits),
    )

by_slash_column :
    (n : ℕ) (proto column : Bytes) (shown : Rule)
    → n < 65536
    → is_concrete proto ≡ true
    → by_slash (some (decimal n, proto)) column shown
      ≡ record shown { port = pos n; protocol = proto }
by_slash_column n proto column shown below concrete =
    let (d, ds, e) = decimal_cons n in
    let value : atoi (d ∷ ds) ≡ some (pos n) = rw e at (atoi-decimal n (omega arith)) in
    ap (λ (t : Bytes). by_slash (some (t, proto)) column shown) e ∙ rw (value, concrete) refl

column_not_anywhere : (n : ℕ) (rest : Bytes) → is_anywhere (decimal n ++ rest) ≡ false
unfolding equal
column_not_anywhere n rest =
    let (d, ds, e) = decimal_cons n in
    let digits : all is_digit (d ∷ ds) ≡ true = rw e at (all-decimal n) in
    ap (λ (t : Bytes). is_anywhere (t ++ rest)) e ∙ ground arith

-- A port and a protocol are read back from the column in which they were given to ufw.
pub ufw_parse_to_column-scope_args :
    (rule shown : Rule) (n : ℕ)
    → rule.port ≡ pos n
    → 0 < n
    → n < 65536
    → is_concrete rule.protocol ≡ true
    → rule.source ≡ []
    → rule.dest ≡ []
    → (column : Bytes) × (scope_args rule ≡ column ∷ [])
      × (ufw_parse_to_column column shown
          ≡ record shown { port = rule.port; protocol = rule.protocol })
unfolding ufw_parse_to_column
ufw_parse_to_column-scope_args rule shown n port above below concrete source dest =
    let column = decimal n ++ (b'/' ∷ rule.protocol) in
    let (whole, cut) = column_parts n rule.protocol concrete in
    (
      column,
      column_of rule n port (ap is_positive port ∙ ground arith) source dest,
      rw (whole, column_not_anywhere n (b'/' ∷ rule.protocol), cut)
            (by_slash_column n rule.protocol column shown below concrete)
          ∙ ap (λ (p : ℤ). record shown { port = p; protocol = rule.protocol }) (sym port),
    )

by_slash_dest :
    (c : ℕ) (net len column : Bytes) (shown : Rule)
    → (by_slash (some (c ∷ net, len)) column shown).dest ≡ shown.dest
by_slash_dest c net len column shown = elim (Bool-cases (is_concrete len)) [
  | inl concrete ↦ elim (Option-cases (atoi (c ∷ net))) [
    | inl no_port ↦ rw (concrete, no_port) refl
    | inr (p, port) ↦ rw (concrete, port) refl
  ]
  | inr other ↦ elim (Option-cases (atoi (c ∷ net))) [
    | inl no_port ↦ rw (other, no_port) refl
    | inr (p, port) ↦ rw (other, port) refl
  ]
]

-- A network in the column, which has a slash, is no destination of the rule that is listed.
pub ufw_parse_to_column_network :
    (column : Bytes) (c : ℕ) (net len : Bytes) (shown : Rule)
    → cut_at b'/' (trim_space column) ≡ some (c ∷ net, len)
    → (ufw_parse_to_column column shown).dest ≡ shown.dest
unfolding ufw_parse_to_column
ufw_parse_to_column_network column c net len shown h =
    rw h (elim (Bool-cases (is_anywhere (trim_space column))) [
      | inl anywhere ↦ rw anywhere refl
      | inr other ↦ rw other (by_slash_dest c net len (trim_space column) shown)
    ])
