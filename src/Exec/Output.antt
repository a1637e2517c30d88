-- ===== src/Exec/Output.antt =====
-- runStreamingWithStdin of exec.go: what is kept of a child's two streams, what the callback sees,
-- and how a cancelled child is ended. The child itself is what it sends, a list of events.
pub mod Laws
use power_manage_sdk.Exec.CappedBuffer.{truncation_marker}
use power_manage_sdk.Prelude.{
  ℕ, suc, ◌+◌, Bool, true, false, Option, none, some, List, [], ◌∷◌, ◌++◌, Bytes, ℤ, pos,
  is_negative, ltb, leb, if◌then◌else◌, length,
}

pub data StreamType : Type 0 where
  stream_stdout stream_stderr : StreamType

abbrev pub max_output_bytes : ℕ
max_output_bytes = 1048576

-- `stdoutSeq`, `stdoutBytes`, `stdoutBuf`, and the same for stderr.
pub record Stream : Type 0 where
  pub seq : ℕ
  pub bytes : ℕ
  pub buf : Bytes

-- Both streams, and the calls of the callback, oldest first.
pub record Capture : Type 0 where
  pub out : Stream
  pub err_ : Stream
  pub calls : List (StreamType × (Bytes × ℕ))

abbrev pub newline : Bytes
newline = 10 ∷ []

-- One line's share in its own stream; `watched` when there is a callback.
unfoldable pub take_line : Bool → Stream → Bytes → Stream
take_line watched s line =
    let total = s.bytes + (length line + 1) in
    record {
      seq = if watched then s.seq + 1 else s.seq;
      bytes = total;
      buf = if leb total max_output_bytes then s.buf ++ (line ++ newline) else s.buf;
    }

-- `recordLine`.
unfoldable pub record_line : Bool → StreamType → Capture → Bytes → Capture
record_line watched stream_stdout c line = record c {
  out = take_line watched c.out line;
  calls =
      if watched then c.calls ++ ((stream_stdout, (line ++ newline, c.out.seq)) ∷ []) else c.calls;
}
record_line watched stream_stderr c line = record c {
  err_ = take_line watched c.err_ line;
  calls =
      if watched then c.calls ++ ((stream_stderr, (line ++ newline, c.err_.seq)) ∷ []) else c.calls;
}

-- What the draining goroutine receives.
pub data ChildEvent : Type 0 where
  sent : StreamType → Bytes → ChildEvent
  closed_stream : StreamType → ChildEvent
  ctx_done : ChildEvent

abbrev pub same_stream : StreamType → StreamType → Bool
same_stream stream_stdout stream_stdout = true
same_stream stream_stderr stream_stderr = true
same_stream _ _ = false

abbrev pub sibling : StreamType → StreamType
sibling stream_stdout = stream_stderr
sibling stream_stderr = stream_stdout

-- `drainRemaining`: the lines of one stream until it closes; a cancellation does not end it.
unfoldable pub drain_remaining : Bool → StreamType → Capture → List ChildEvent → Capture
drain_remaining watched s c [] = c
drain_remaining watched s c (sent t line ∷ es) =
    drain_remaining watched s (if same_stream s t then record_line watched t c line else c) es
drain_remaining watched s c (closed_stream t ∷ es) =
    let rest = drain_remaining watched s c es in if same_stream s t then c else rest
drain_remaining watched s c (ctx_done ∷ es) = drain_remaining watched s c es

-- The goroutine's loop.
unfoldable pub drain : Bool → Capture → List ChildEvent → Capture
drain watched c [] = c
drain watched c (sent t line ∷ es) = drain watched (record_line watched t c line) es
drain watched c (closed_stream t ∷ es) = drain_remaining watched (sibling t) c es
drain watched c (ctx_done ∷ es) = c

abbrev pub no_capture : Capture
no_capture = record {
  out = record { seq = 0; bytes = 0; buf = [] };
  err_ = record { seq = 0; bytes = 0; buf = [] };
  calls = [];
}

abbrev pub shown : Stream → Bytes
shown s = if ltb max_output_bytes s.bytes then s.buf ++ truncation_marker else s.buf

pub record Status : Type 0 where
  pub exit : ℤ
  pub error : Option Bytes
  pub pid : ℕ

pub data Signal : Type 0 where
  sigterm sigkill : Signal

-- `awaitStatusOrKill`: the status that arrives within the first grace period, or the second, and
-- the snapshots that the command gives when they pass.
unfoldable pub await_status_or_kill :
    Option Status → Status → Option Status → Status → List Signal × Status
await_status_or_kill (some status) _ _ _ = (sigterm ∷ [], status)
await_status_or_kill none snapshot second last = (
  sigterm ∷ (if ltb 0 snapshot.pid then sigkill ∷ [] else []),
  elim second [ some status ↦ status | none ↦ last ],
)

-- How the wait ends: by the child's status, or by the context's error and what follows it.
pub data Ending : Type 0 where
  finished : Status → Ending
  cancelled : Bytes → Option Status → Status → Option Status → Status → Ending

abbrev pub final_status : Ending → Status × Option Bytes
final_status (finished status) = (status, status.error)
final_status (cancelled e first snapshot second last) =
    ((await_status_or_kill first snapshot second last).1, some e)

pub record Output : Type 0 where
  pub exit_code : ℤ
  pub stdout : Bytes
  pub stderr : Bytes

-- What a child does when it is run.
pub record Child : Type 0 where
  pub events : List ChildEvent
  pub ending : Ending

-- `runStreamingWithStdin`.
unfoldable pub run_streaming : Bool → Child → Output × Option Bytes
run_streaming watched child =
    let c = drain watched no_capture child.events in
    let (status, e) = final_status child.ending in
    (record { exit_code = status.exit; stdout = shown c.out; stderr = shown c.err_ }, e)
