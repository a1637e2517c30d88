-- ===== src/Firewall/Firewalld/Namespaces.antt =====
-- Which services a manager takes for its own.
use power_manage_sdk.Firewall.{validate_namespace, namespace_re, namespace_char, is_lower}
use power_manage_sdk.Firewall.Firewalld.Service.{
  firewalld_service_name, with_prefix, firewalld_filter_namespace_services,
}
use power_manage_sdk.Prelude.{
  true, false, ◌==◌, ◌≡◌, refl, sym, ap, ◌∙◌, arith, Option, none, some, List, [], ◌∷◌, ◌++◌,
  append_assoc, Bytes, equal, equal_iff, any, All, all-lacks, cut_prefix, cut_prefix-append,
  cut_prefix-eq-some, cut_at, cut_at-append, if◌then◌else◌, ok, matches_class-all, Option-cases,
  Bool-cases, inl, inr, fields,
}

namespace_lacks_dash :
    (ns : Bytes) → validate_namespace ns ≡ ok tt → any (λ c. c == b'-') ns ≡ false
unfolding validate_namespace namespace_re
namespace_lacks_dash ns good =
    all-lacks namespace_char b'-' ns refl
      (matches_class-all is_lower namespace_char 30 ns (λ c h. ground arith) (ground arith))

other_name :
    (ns other id : Bytes)
    → validate_namespace ns ≡ ok tt
    → validate_namespace other ≡ ok tt
    → equal ns other ≡ false
    → cut_prefix (ns ++ (b'-' ∷ [])) (firewalld_service_name other id) ≡ none
other_name ns other id mine theirs different =
    elim (Option-cases (cut_prefix (ns ++ (b'-' ∷ [])) (firewalld_service_name other id))) [
      | inl missing ↦ missing
      | inr (rest, e) ↦
          let shape =
            cut_prefix-eq-some (ns ++ (b'-' ∷ [])) (firewalld_service_name other id) rest e
            ∙ append_assoc ns (b'-' ∷ []) rest in
          let cuts : ◌≡◌ {A = Option (Bytes × Bytes)} (some (other, id)) (some (ns, rest)) =
            sym (cut_at-append b'-' other id (namespace_lacks_dash other theirs))
            ∙ ap (cut_at b'-') shape
            ∙ cut_at-append b'-' ns rest (namespace_lacks_dash ns mine) in
          let same : equal ns other ≡ true = (equal_iff ns other).1 cc in cc
    ]

-- A name is its namespace's and no other's.
cut_prefix-service_name :
    (ns other id : Bytes)
    → validate_namespace ns ≡ ok tt
    → validate_namespace other ≡ ok tt
    → cut_prefix (ns ++ (b'-' ∷ [])) (firewalld_service_name other id)
      ≡ (if equal ns other then some id else none)
cut_prefix-service_name ns other id mine theirs = elim (Bool-cases (equal ns other)) [
  | inr different ↦ other_name ns other id mine theirs different ∙ rw different refl
  | inl same ↦
      ap (λ (o : Bytes). cut_prefix (ns ++ (b'-' ∷ [])) (o ++ (b'-' ∷ id)))
        (sym ((equal_iff ns other).0 same))
      ∙ ap (cut_prefix (ns ++ (b'-' ∷ []))) (sym (append_assoc ns (b'-' ∷ []) id))
      ∙ cut_prefix-append (ns ++ (b'-' ∷ [])) id
      ∙ rw same refl
]

-- The rules of one namespace among those of several managers.
abbrev pub own_ids : Bytes → List (Bytes × Bytes) → List Bytes
own_ids ns [] = []
own_ids ns ((other, id) ∷ rules) =
    let rest = own_ids ns rules in if equal ns other then id ∷ rest else rest

abbrev pub service_names : List (Bytes × Bytes) → List Bytes
service_names [] = []
service_names ((ns, id) ∷ rules) = firewalld_service_name ns id ∷ service_names rules

abbrev pub IsManaged : Bytes × Bytes → Type 0
IsManaged (ns, id) = validate_namespace ns ≡ ok tt

with_prefix-service_names :
    (ns : Bytes) (rules : List (Bytes × Bytes))
    → validate_namespace ns ≡ ok tt
    → All IsManaged rules
    → with_prefix (ns ++ (b'-' ∷ [])) (service_names rules) ≡ own_ids ns rules
with_prefix-service_names ns [] mine theirs = refl
with_prefix-service_names ns ((other, id) ∷ rules) mine (valid, more) =
    let rest = with_prefix-service_names ns rules mine more in
    rw (cut_prefix-service_name ns other id mine valid, rest)
      (elim (Bool-cases (equal ns other)) [
        | inl same ↦ rw same refl
        | inr different ↦ rw different refl
      ])

-- Among the services of several managers a manager picks its own, and all of them.
pub firewalld_filter_namespace_services-service_names :
    (ns out : Bytes) (rules : List (Bytes × Bytes))
    → validate_namespace ns ≡ ok tt
    → All IsManaged rules
    → fields out ≡ service_names rules
    → firewalld_filter_namespace_services out ns ≡ own_ids ns rules
unfolding firewalld_filter_namespace_services
firewalld_filter_namespace_services-service_names ns out rules mine theirs listed =
    ap (with_prefix (ns ++ (b'-' ∷ []))) listed ∙ with_prefix-service_names ns rules mine theirs
