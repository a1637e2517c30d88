-- ===== src/Exec/Runner/Laws.antt =====
-- What a runner spawns, and when it reports success.
use power_manage_sdk.Exec.Env.{build_child_env}
use power_manage_sdk.Exec.Output.Laws.{run_streaming-kept}
use power_manage_sdk.Exec.Output.{stream_stdout, stream_stderr, Output, Child, run_streaming}
use power_manage_sdk.Exec.Runner.{
  PrivilegeBackend, sudo, doas, direct, unnamed, Command, RunError, Spawn, Host, resolve_absolute,
  escalation_tool, wrap_escalation, detect_escalation_denied, is_missing, lacks_tool, spawn_of,
  with_tool, with_path, with_env, before_start, found, prepare, after_run, executed, exec, run,
  stream, name_required, bad_env, backend_unavailable, escalation_unavailable,
}
use power_manage_sdk.Prelude.{
  ◌≡◌, ◌↔◌, refl, sym, ap, ◌∙◌, arith, Bool, true, false, ◌&&◌, Option, none, some, List, ◌∷◌,
  Bytes, codes, ok, ◌>>◌, refuse, wrap, is_empty, >>-eq-ok, >>=-eq-ok, refuse-eq-ok, wrap-eq-ok,
  ok_injective, Result-cases, inl, inr,
}

-- Through a wrapper that is installed, which never prompts and is given the absolute path.
abbrev pub IsWrapped : Host → Bytes → Bytes → List Bytes → Spawn → Type 0
IsWrapped h tool p args s =
    (s.program ≡ tool) × (s.argv ≡ codes "-n" ∷ p ∷ args) × (is_missing (h.look_path tool) ≡ false)

-- Under the absolute path itself.
abbrev pub IsBare : Bytes → List Bytes → Spawn → Type 0
IsBare p args s = (s.program ≡ p) × (s.argv ≡ args)

abbrev pub RunsAs : Host → PrivilegeBackend → Bool → Bytes → List Bytes → Spawn → Type 0
RunsAs h sudo true p args s = IsWrapped h (codes "sudo") p args s
RunsAs h doas true p args s = IsWrapped h (codes "doas") p args s
RunsAs h b escalate p args s = IsBare p args s

abbrev pub IsReady : Host → PrivilegeBackend → Command → Spawn → Type 0
IsReady h b c s =
    (h.ctx_error ≡ none)
    × (is_empty c.name ≡ false)
    × (build_child_env h.parent c.child_path c.env ≡ ok s.child_env)
    × (s.input ≡ c.stdin)
    × (s.work_dir ≡ c.dir)
    × ((p : Bytes) × (resolve_absolute h c.name ≡ some p) × RunsAs h b c.escalate p c.args s)

wrap_escalation-RunsAs :
    (h : Host) (b : PrivilegeBackend) (escalate : Bool) (p : Bytes) (args : List Bytes) (s : Spawn)
    → s.program ≡ (wrap_escalation b escalate p args).0
    → s.argv ≡ (wrap_escalation b escalate p args).1
    → lacks_tool h b escalate ≡ false
    → RunsAs h b escalate p args s
unfolding wrap_escalation
wrap_escalation-RunsAs h sudo true p args s e f g = (e, f, g)
wrap_escalation-RunsAs h doas true p args s e f g = (e, f, g)
wrap_escalation-RunsAs h direct true p args s e f g = (e, f)
wrap_escalation-RunsAs h (unnamed n) true p args s e f g = (e, f)
wrap_escalation-RunsAs h sudo false p args s e f g = (e, f)
wrap_escalation-RunsAs h doas false p args s e f g = (e, f)
wrap_escalation-RunsAs h direct false p args s e f g = (e, f)
wrap_escalation-RunsAs h (unnamed n) false p args s e f g = (e, f)

RunsAs-wrap_escalation :
    (h : Host) (b : PrivilegeBackend) (escalate : Bool) (p : Bytes) (args : List Bytes) (s : Spawn)
    → RunsAs h b escalate p args s
    → (s.program ≡ (wrap_escalation b escalate p args).0)
      × (s.argv ≡ (wrap_escalation b escalate p args).1)
      × (lacks_tool h b escalate ≡ false)
unfolding wrap_escalation
RunsAs-wrap_escalation h sudo true p args s e = e
RunsAs-wrap_escalation h doas true p args s e = e
RunsAs-wrap_escalation h direct true p args s (e, f) = (e, f, refl)
RunsAs-wrap_escalation h (unnamed n) true p args s (e, f) = (e, f, refl)
RunsAs-wrap_escalation h sudo false p args s (e, f) = (e, f, refl)
RunsAs-wrap_escalation h doas false p args s (e, f) = (e, f, refl)
RunsAs-wrap_escalation h direct false p args s (e, f) = (e, f, refl)
RunsAs-wrap_escalation h (unnamed n) false p args s (e, f) = (e, f, refl)

found-eq-ok : (e : RunError) (o : Option Bytes) {p : Bytes} → found e o ≡ ok p → o ≡ some p
found-eq-ok e none h = cc
found-eq-ok e (some p) h = cc

before_start-eq-ok : (o : Option Bytes) → before_start o ≡ ok tt → o ≡ none
before_start-eq-ok none h = refl
before_start-eq-ok (some e) h = cc

prepare_sound :
    (h : Host) (b : PrivilegeBackend) (c : Command) (s : Spawn)
    → prepare h b c ≡ ok s
    → IsReady h b c s
unfolding prepare
prepare_sound h b c s e =
    let (started, e1) =
      >>-eq-ok (before_start h.ctx_error) (refuse (is_empty c.name) name_required >> with_env h b c)
        e in
    let (named, e2) = >>-eq-ok (refuse (is_empty c.name) name_required) (with_env h b c) e1 in
    let (env, env_ok, e3) =
      >>=-eq-ok (wrap bad_env (build_child_env h.parent c.child_path c.env)) (with_path h b c) e2 in
    let (p, p_ok, e4) =
      >>=-eq-ok (found (backend_unavailable c.name) (resolve_absolute h c.name))
        (with_tool h b c env) e3 in
    let (tool_ok, e5) =
      >>-eq-ok (refuse (lacks_tool h b c.escalate) (escalation_unavailable (escalation_tool b)))
        (ok (spawn_of b c env p)) e4 in
    let same : spawn_of b c env p ≡ s = ok_injective e5 in
    (
      before_start-eq-ok h.ctx_error started,
      refuse-eq-ok (is_empty c.name) name_required named,
      wrap-eq-ok bad_env (build_child_env h.parent c.child_path c.env) env_ok
          ∙ ap (λ (t : Spawn). ok t.child_env) same,
      ap (λ (t : Spawn). t.input) (sym same),
      ap (λ (t : Spawn). t.work_dir) (sym same),
      (
        p,
        found-eq-ok (backend_unavailable c.name) (resolve_absolute h c.name) p_ok,
        wrap_escalation-RunsAs h b c.escalate p c.args s (ap (λ (t : Spawn). t.program) (sym same))
            (ap (λ (t : Spawn). t.argv) (sym same))
            (refuse-eq-ok (lacks_tool h b c.escalate) (escalation_unavailable (escalation_tool b))
              tool_ok),
      ),
    )

prepare_complete :
    (h : Host) (b : PrivilegeBackend) (c : Command) (s : Spawn)
    → IsReady h b c s
    → prepare h b c ≡ ok s
unfolding prepare
prepare_complete h b c s (started, named, env_ok, input, dir, (p, path_ok, how)) =
    let (e, f, g) = RunsAs-wrap_escalation h b c.escalate p c.args s how in ground (arith)

after_run-eq-ok :
    (b : PrivilegeBackend) (c : Command) (o : Output × Option Bytes) (r : Output)
    → after_run b c o ≡ (r, none)
    → (o ≡ (r, none)) × ((c.escalate && detect_escalation_denied b r) ≡ false)
after_run-eq-ok b c (o, some e) r h = ground arith
after_run-eq-ok b c (o, none) r h = (ground arith, ground arith)

exec_ok_sound :
    (h : Host) (w : Bool) (b : PrivilegeBackend) (c : Command) (r : Output)
    → exec h w b c ≡ (r, none)
    → (s : Spawn) × IsReady h b c s
      × (run_streaming w (h.spawned s) ≡ (r, none))
      × ((c.escalate && detect_escalation_denied b r) ≡ false)
unfolding exec
exec_ok_sound h w b c r e = elim (Result-cases (prepare h b c)) [
  | inl (s, ready) ↦
      let (ran, granted) =
        after_run-eq-ok b c (run_streaming w (h.spawned s)) r
          (sym (ap (executed h w b c) ready) ∙ e) in
      (s, prepare_sound h b c s ready, ran, granted)
  | inr (bad, refused) ↦ ground arith
]

-- A run reports no error exactly when a child was spawned from a live context, under a name, with
-- the environment that the command may have and the program's absolute path, through the
-- installed wrapper where the backend has one and escalation was asked for and bare otherwise, the
-- child ended without an error, and the wrapper did not refuse; and then returns what it printed.
pub exec_ok :
    (h : Host) (w : Bool) (b : PrivilegeBackend) (c : Command) (r : Output)
    → (exec h w b c ≡ (r, none)) ↔ (
        (s : Spawn) × IsReady h b c s
        × (run_streaming w (h.spawned s) ≡ (r, none))
        × ((c.escalate && detect_escalation_denied b r) ≡ false))
unfolding exec
exec_ok h w b c r = (
  exec_ok_sound h w b c r,
  λ (s, ready, ran, granted). ap (executed h w b c) (prepare_complete h b c s ready) ∙ ground arith,
)

run_streaming_watched : (child : Child) → run_streaming false child ≡ run_streaming true child
unfolding run_streaming
run_streaming_watched child =
    let (out, _) = run_streaming-kept false child stream_stdout in
    let (out2, _) = run_streaming-kept true child stream_stdout in
    let (err_, _) = run_streaming-kept false child stream_stderr in
    let (err2, _) = run_streaming-kept true child stream_stderr in
    ground (arith, out ∙ sym out2, err_ ∙ sym err2)

-- Run and Stream of one command on one host return the same.
pub run-stream : (h : Host) (b : PrivilegeBackend) (c : Command) → run h b c ≡ stream h b c
unfolding exec
run-stream h b c = elim (Result-cases (prepare h b c)) [
  | inl (s, ready) ↦
      ap (executed h false b c) ready
      ∙ ap (after_run b c) (run_streaming_watched (h.spawned s))
      ∙ sym (ap (executed h true b c) ready)
  | inr (e, bad) ↦ ap (executed h false b c) bad ∙ sym (ap (executed h true b c) bad)
]
