-- ===== src/Service/UnitContent/Tests.antt =====
-- Unit files, and what becomes of them.
use power_manage_sdk.Paths.Clean.{clean}
use power_manage_sdk.Service.UnitContent.{
  trailing_backslashes, join_continuation_lines, base, is_shell_c_flag, validate_exec_line,
  validate_env_line, check_line, validate_unit_content, shells_out, runs_untrusted, linker_override,
}
use power_manage_sdk.Service.UnitContent.Reading.{read_lines, validate_unit_content_hidden}
use power_manage_sdk.Prelude.{
  Bytes, ◌≡◌, refl, [], ◌∷◌, ◌++◌, codes, ok, err, equal, member, has_prefix, trim_space, fields,
}

curl_refused :
    validate_unit_content (codes "[Service]\nExecStart=-/bin/sh \\\n  -c 'curl|sh'\n")
    ≡ err shells_out
unfolding validate_unit_content join_continuation_lines trailing_backslashes check_line
    validate_exec_line base is_shell_c_flag clean equal member has_prefix trim_space fields
curl_refused = refl

tmp_refused : validate_unit_content (codes "ExecStart=/var/../tmp/x\n") ≡ err runs_untrusted
unfolding validate_unit_content join_continuation_lines trailing_backslashes check_line
    validate_exec_line base is_shell_c_flag clean equal member has_prefix trim_space fields
tmp_refused = refl

preload_refused :
    validate_unit_content (codes "Environment=A=1 'LD_PRELOAD=/x'\n") ≡ err linker_override
unfolding validate_unit_content join_continuation_lines trailing_backslashes check_line
    validate_exec_line validate_env_line base is_shell_c_flag clean equal member has_prefix
    trim_space fields
preload_refused = refl

abbrev dropper : Bytes
dropper = codes "ExecStart=/bin/sh -c 'curl|sh'"

dropper_refused : validate_unit_content dropper ≡ err shells_out
unfolding validate_unit_content join_continuation_lines trailing_backslashes check_line
    validate_exec_line base is_shell_c_flag clean equal member has_prefix trim_space fields
dropper_refused = refl

validate_unit_content_hidden_example :
    (validate_unit_content (codes "#\\\n" ++ dropper) ≡ ok tt)
    × (read_lines (codes "#\\\n" ++ dropper) ≡ read_lines dropper)
validate_unit_content_hidden_example = validate_unit_content_hidden dropper refl

abbrev unit : Bytes
unit = codes "# web\n[Service]\nExecStart=/usr/bin/web \\\n --port 80\n"

-- A comment within a continued line, and quotes, hide the flag too.
comment_within_accepted :
    validate_unit_content (codes "ExecStart=/bin/sh \\\n# no\n -c 'curl|sh'") ≡ ok tt
unfolding validate_unit_content join_continuation_lines trailing_backslashes check_line
    validate_exec_line base is_shell_c_flag clean equal member has_prefix trim_space fields
comment_within_accepted = refl

quoted_flag_accepted : validate_unit_content (codes "ExecStart=/bin/sh \"-c\" 'curl|sh'") ≡ ok tt
unfolding validate_unit_content join_continuation_lines trailing_backslashes check_line
    validate_exec_line base is_shell_c_flag clean equal member has_prefix trim_space fields
quoted_flag_accepted = refl

quoted_path_accepted : validate_unit_content (codes "ExecStart=\"/tmp/x\"") ≡ ok tt
unfolding validate_unit_content join_continuation_lines trailing_backslashes check_line
    validate_exec_line base is_shell_c_flag clean equal member has_prefix trim_space fields
quoted_path_accepted = refl

-- A blank after the backslash, and the code joins lines that systemd reads apart.
abbrev stray : Bytes
stray = codes "X=a \\ \nExecStart=/bin/sh -c 'curl|sh'"

stray_accepted : validate_unit_content stray ≡ ok tt
unfolding validate_unit_content join_continuation_lines trailing_backslashes check_line
    validate_exec_line base is_shell_c_flag clean equal member has_prefix trim_space fields
stray_accepted = refl

stray_read : read_lines stray ≡ codes "X=a \\ " ∷ dropper ∷ []
unfolding read_lines has_prefix trim_space
stray_read = refl
