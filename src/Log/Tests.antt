-- ===== src/Log/Tests.antt =====
-- Patterns and queries.
use power_manage_sdk.Log.Guard.{
  Reason, nested_quantifier, alternation, bounded_repetition, quantifier_unbounded,
  bounded_repeat_bounds, is_pathological_grep_pattern,
}
use power_manage_sdk.Log.Sources.{journal_args, capped_lines, split_lines, drop_status_markers}
use power_manage_sdk.Log.Groups.{is_pathological_grep_pattern_nested}
use power_manage_sdk.Prelude.{
  ◌≡◌, refl, true, none, some, [], ◌∷◌, codes, pos, atoi, trim_space, has_prefix, decimal,
}

nested_refused : is_pathological_grep_pattern (codes "((a+))+") ≡ some nested_quantifier
unfolding is_pathological_grep_pattern quantifier_unbounded bounded_repeat_bounds
nested_refused = refl

alternation_refused : is_pathological_grep_pattern (codes "(a|ab)*") ≡ some alternation
unfolding is_pathological_grep_pattern quantifier_unbounded bounded_repeat_bounds
alternation_refused = refl

repetition_refused : is_pathological_grep_pattern (codes "(.*a){1,11}") ≡ some bounded_repetition
unfolding is_pathological_grep_pattern quantifier_unbounded bounded_repeat_bounds atoi trim_space
repetition_refused = refl

escaped_accepted : is_pathological_grep_pattern (codes "\\(a+\\)+") ≡ none
unfolding is_pathological_grep_pattern quantifier_unbounded bounded_repeat_bounds
escaped_accepted = refl

-- A parenthesis in a bracket expression closes the group for the guard, and hides the quantifier.
bracket_hides : is_pathological_grep_pattern (codes "([)]a+)+") ≡ none
unfolding is_pathological_grep_pattern quantifier_unbounded bounded_repeat_bounds
bracket_hides = refl

is_pathological_grep_pattern_nested_example :
    (why : Reason) × (is_pathological_grep_pattern (codes "^(x|([a-z]+)*y") ≡ some why)
is_pathological_grep_pattern_nested_example =
    is_pathological_grep_pattern_nested (codes "^(x|") (codes "[a-z]+") (codes "y") b'*' refl refl
      refl refl

journal :
    journal_args (record {
      unit = codes "sshd.service";
      since = [];
      until = [];
      priority = codes "err";
      grep = [];
      kernel = true;
      lines = pos 20000;
    })
    ≡ codes "--no-pager"
      ∷ codes "-n"
      ∷ codes "10000"
      ∷ codes "-u"
      ∷ codes "sshd.service"
      ∷ codes "-p"
      ∷ codes "err"
      ∷ codes "-k"
      ∷ []
unfolding journal_args capped_lines decimal
journal = refl

markers_dropped :
    drop_status_markers (split_lines (codes "-- Boot 1 --\nJan 1 a\n")) ≡ codes "Jan 1 a" ∷ []
unfolding drop_status_markers split_lines has_prefix trim_space
markers_dropped = refl
