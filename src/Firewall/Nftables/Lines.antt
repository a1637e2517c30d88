-- ===== src/Firewall/Nftables/Lines.antt =====
-- The script for nft, as nft takes it apart: into lines, and the added rule into words.
use power_manage_sdk.Firewall.{
  invalid_rule, Rule, Addresses, validate_rule_id, validate_namespace, is_positive,
}
use power_manage_sdk.Firewall.Nftables.Script.{
  nft_table_name, match_parts, rule_parts, add_table, add_chain, delete_rule, with_newline,
  nft_build_apply_script_strict, mixed, script_of, with_source, with_dest,
}
use power_manage_sdk.Prelude.{
  true, false, ◌&&◌, ◌==◌, ◌≡◌, refl, sym, ap, ◌∙◌, arith, List, [], ◌∷◌, ◌++◌, append_assoc, Bytes,
  codes, drop, is_empty, any, all, all-append, all_mono, all-join_with, all-lacks, all-lacks_each,
  if◌then◌else◌, ℤ, itoa, ok, refuse, ◌>>=◌, >>=-eq-ok, >>-eq-ok, ok_injective, inl, inr,
  Bool-cases, split_on, split_on-append, split_on-join_with, join_with,
}
use power_manage_sdk.Firewall.Nftables.Plain.{
  is_plain, in_word, in_line, TakesAddresses, namespace-is_plain, rule_id-is_plain, itoa-is_plain,
  match_parts-is_plain, rule_words, bare_words, bare_words-is_plain, rule_words-in_word,
}

abbrev pub rule_line : Bytes → Rule → List Bytes → List Bytes → Bytes
rule_line ns rule source dest = join_with (32 ∷ []) (rule_parts ns rule source dest)

split_rule_line :
    (ns : Bytes) (rule : Rule) (source dest : List Bytes)
    → all (all in_word) (rule_words ns rule source dest) ≡ true
    → split_on 32 (rule_line ns rule source dest) ≡ rule_words ns rule source dest
split_rule_line ns rule source dest plain =
    split_on-join_with 32 (codes "add") (codes "rule" ∷ drop 1 (rule_parts ns rule source dest))
      (all-lacks_each in_word 32 (rule_words ns rule source dest) refl plain)

-- A line lacks a line's end.
one_line : (s : Bytes) → all in_line s ≡ true → any (λ c. c == 10) s ≡ false
one_line s h = all-lacks in_line 10 s refl h

word-in_line : (s : Bytes) → all in_word s ≡ true → all in_line s ≡ true
word-in_line s h = all_mono in_word in_line s (λ c g. ground arith) h

plain-in_line : (s : Bytes) → all is_plain s ≡ true → all in_line s ≡ true
plain-in_line s h = all_mono is_plain in_line s (λ c g. ground arith) h

rule_line-in_line :
    (ns : Bytes) (rule : Rule) (source dest : List Bytes)
    → all (all in_word) (rule_words ns rule source dest) ≡ true
    → all in_line (rule_line ns rule source dest) ≡ true
rule_line-in_line ns rule source dest plain =
    all-join_with in_line (32 ∷ []) (rule_words ns rule source dest) refl
      (all_mono (all in_word) (all in_line) (rule_words ns rule source dest) word-in_line plain)

split_line :
    (line rest : Bytes)
    → all in_line line ≡ true
    → split_on 10 (with_newline line ++ rest) ≡ line ∷ split_on 10 rest
split_line line rest h =
    ap (split_on 10) (append_assoc line (10 ∷ []) rest)
    ∙ split_on-append 10 line rest (one_line line h)

named-in_line :
    (ns rest : Bytes)
    → all is_plain ns ≡ true
    → all in_line rest ≡ true
    → all in_line (nft_table_name ns ++ rest) ≡ true
named-in_line ns rest n r = ground (
  arith,
  all-append in_line (nft_table_name ns) rest,
  all-append in_line ns (codes "_filter"),
  plain-in_line ns n,
)

add_table-in_line : (ns : Bytes) → all is_plain ns ≡ true → all in_line (add_table ns) ≡ true
add_table-in_line ns n = ground (arith, all-append in_line ns (codes "_filter"), plain-in_line ns n)

add_chain-in_line : (ns : Bytes) → all is_plain ns ≡ true → all in_line (add_chain ns) ≡ true
add_chain-in_line ns n =
    named-in_line ns (codes " input { type filter hook input priority 0; policy accept; }") n refl

delete_rule-in_line :
    (ns : Bytes) (handle : ℤ)
    → all is_plain ns ≡ true
    → is_positive handle ≡ true
    → all in_line (delete_rule ns handle) ≡ true
delete_rule-in_line ns handle n h =
    named-in_line ns (codes " input handle " ++ itoa handle) n
      (plain-in_line (itoa handle) (itoa-is_plain handle h))

-- The lines of a script: the table, the chain, the deletion of the rule that is replaced, the rule.
abbrev pub script_lines : Bytes → ℤ → Bytes → List Bytes
script_lines ns handle line =
    add_table ns
    ∷ add_chain ns
    ∷ ((if is_positive handle then delete_rule ns handle ∷ [] else []) ++ (line ∷ [] ∷ []))

split_script :
    (ns : Bytes) (handle : ℤ) (line : Bytes)
    → all is_plain ns ≡ true
    → all in_line line ≡ true
    → split_on 10 (
        with_newline (add_table ns)
        ++ (with_newline (add_chain ns)
            ++ ((if is_positive handle then with_newline (delete_rule ns handle) else [])
                ++ with_newline line)))
      ≡ script_lines ns handle line
split_script ns handle line n l =
    let rule =
      (if is_positive handle then with_newline (delete_rule ns handle) else [])
      ++ with_newline line in
    let last : split_on 10 (with_newline line) ≡ line ∷ [] ∷ [] =
      split_on-append 10 line [] (one_line line l) in
    split_line (add_table ns) (with_newline (add_chain ns) ++ rule) (add_table-in_line ns n)
    ∙ ap (◌∷◌ (add_table ns)) (split_line (add_chain ns) rule (add_chain-in_line ns n))
    ∙ ap (λ (t : List Bytes). add_table ns ∷ add_chain ns ∷ t)
        (elim (Bool-cases (is_positive handle)) [
          | inr fresh ↦ rw fresh last
          | inl replaced ↦ rw replaced (
              split_line (delete_rule ns handle) (with_newline line)
                (delete_rule-in_line ns handle n replaced)
              ∙ ap (◌∷◌ (delete_rule ns handle)) last)
        ])

-- For a rule and a namespace that were accepted, the lines of the script are those it is made of
-- and no more, and the blanks of the last one separate the words that the rule is made of and no
-- more. But for the quotes around the rule's name, these words are written with letters, digits
-- and `_ - . : /`, so that no part of a rule has a byte that ends a word or a statement of nft.
pub nft_build_apply_script_strict-lines :
    (net : Addresses) (ns : Bytes) (rule : Rule) (handle : ℤ) (script : Bytes)
    → TakesAddresses net
    → validate_namespace ns ≡ ok tt
    → validate_rule_id rule.id ≡ ok tt
    → nft_build_apply_script_strict net ns rule handle ≡ ok script
    → (source : Bytes × List Bytes) × (dest : Bytes × List Bytes) × (match_parts net
          (codes "saddr")
          rule.source
        ≡ ok source)
      × (match_parts net (codes "daddr") rule.dest ≡ ok dest)
      × (split_on 10 script ≡ script_lines ns handle (rule_line ns rule source.1 dest.1))
      × (split_on 32 (rule_line ns rule source.1 dest.1) ≡ rule_words ns rule source.1 dest.1)
      × (all (all is_plain) (bare_words ns rule source.1 dest.1) ≡ true)
unfolding nft_build_apply_script_strict
nft_build_apply_script_strict-lines net ns rule handle script addresses named valid built =
    let (_, chain) =
      >>-eq-ok (refuse (is_positive rule.port && is_empty rule.protocol) invalid_rule)
        (match_parts net (codes "saddr") rule.source >>= with_source net ns rule handle) built in
    let (source, s, rest) =
      >>=-eq-ok (match_parts net (codes "saddr") rule.source) (with_source net ns rule handle)
        chain in
    let (dest, d, last) =
      >>=-eq-ok (match_parts net (codes "daddr") rule.dest) (with_dest ns rule handle source)
        rest in
    let (_, done) =
      >>-eq-ok (refuse (mixed source.0 dest.0) invalid_rule)
        (ok (script_of ns rule handle source.1 dest.1)) last in
    let name = namespace-is_plain ns named in
    let id = rule_id-is_plain rule.id valid in
    let from =
      match_parts-is_plain net (codes "saddr") rule.source source.0 source.1 addresses refl s in
    let to = match_parts-is_plain net (codes "daddr") rule.dest dest.0 dest.1 addresses refl d in
    let words = rule_words-in_word ns rule source.1 dest.1 name id from to in
    let line = rule_line ns rule source.1 dest.1 in
    (
      source,
      dest,
      s,
      d,
      ap (split_on 10) (sym (ok_injective done))
          ∙ split_script ns handle line name (rule_line-in_line ns rule source.1 dest.1 words),
      split_rule_line ns rule source.1 dest.1 words,
      bare_words-is_plain ns rule source.1 dest.1 name id from to,
    )
