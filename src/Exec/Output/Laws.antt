-- ===== src/Exec/Output/Laws.antt =====
-- What is kept of a stream, whatever the other stream and the timing do.
use power_manage_sdk.Exec.CappedBuffer.{truncation_marker}
use power_manage_sdk.Exec.Output.{
  StreamType, stream_stdout, stream_stderr, max_output_bytes, Stream, Capture, newline, take_line,
  record_line, ChildEvent, sent, closed_stream, ctx_done, same_stream, sibling, drain_remaining,
  drain, no_capture, shown, Output, Child, run_streaming,
}
use power_manage_sdk.Prelude.{
  ◌≡◌, refl, sym, ap, ◌∙◌, arith, ℕ, ◌+◌, ◌-◌, ◌<◌, Bool, true, List, [], ◌∷◌, ◌++◌, Bytes, ltb,
  leb, if◌then◌else◌, length, append_assoc, append-nil, Bool-cases, inl, inr,
}

abbrev pub stream_of : StreamType → Capture → Stream
stream_of stream_stdout c = c.out
stream_of stream_stderr c = c.err_

abbrev pub output_of : StreamType → Output → Bytes
output_of stream_stdout o = o.stdout
output_of stream_stderr o = o.stderr

-- The lines of a stream up to its end.
abbrev pub until_closed : StreamType → List ChildEvent → List Bytes
until_closed s [] = []
until_closed s (sent t line ∷ es) =
    if same_stream s t then line ∷ until_closed s es else until_closed s es
until_closed s (closed_stream t ∷ es) = if same_stream s t then [] else until_closed s es
until_closed s (ctx_done ∷ es) = until_closed s es

-- The lines of a stream that are received: up to its end, or to a cancellation while both streams
-- are open.
abbrev pub heard : StreamType → List ChildEvent → List Bytes
heard s [] = []
heard s (sent t line ∷ es) = if same_stream s t then line ∷ heard s es else heard s es
heard s (closed_stream t ∷ es) = if same_stream s t then [] else until_closed s es
heard s (ctx_done ∷ es) = []

abbrev pub take_lines : Bool → Stream → List Bytes → Stream
take_lines w s [] = s
take_lines w s (l ∷ ls) = take_lines w (take_line w s l) ls

module _ (w : Bool) where
  drain_remaining-stream_of :
      (s t : StreamType) (c : Capture) (es : List ChildEvent)
      → stream_of s (drain_remaining w t c es) ≡ (
          if same_stream s t
          then take_lines w (stream_of s c) (until_closed s es)
          else stream_of s c)
  unfolding drain_remaining record_line
  drain_remaining-stream_of s t c [] = ground arith
  drain_remaining-stream_of s t c (sent u line ∷ es) = ground (
    arith,
    drain_remaining-stream_of s t (if same_stream t u then record_line w u c line else c) es,
  )
  drain_remaining-stream_of s t c (closed_stream u ∷ es) =
      ground (arith, drain_remaining-stream_of s t c es)
  drain_remaining-stream_of s t c (ctx_done ∷ es) = drain_remaining-stream_of s t c es

  drain-stream_of :
      (s : StreamType) (c : Capture) (es : List ChildEvent)
      → stream_of s (drain w c es) ≡ take_lines w (stream_of s c) (heard s es)
  unfolding drain record_line
  drain-stream_of s c [] = refl
  drain-stream_of s c (sent u line ∷ es) =
      ground (arith, drain-stream_of s (record_line w u c line) es)
  drain-stream_of s c (closed_stream u ∷ es) =
      ground (arith, drain_remaining-stream_of s (sibling u) c es)
  drain-stream_of s c (ctx_done ∷ es) = refl

-- The bytes of the lines, each with its newline, and the lines that fit a budget: all those before
-- the first that does not.
abbrev pub size : List Bytes → ℕ
size [] = 0
size (l ∷ ls) = (length l + 1) + size ls

abbrev pub fitting : ℕ → List Bytes → List Bytes
fitting n [] = []
fitting n (l ∷ ls) = if leb (length l + 1) n then l ∷ fitting (n - (length l + 1)) ls else []

abbrev pub text : List Bytes → Bytes
text [] = []
text (l ∷ ls) = (l ++ newline) ++ text ls

abbrev pub kept : List Bytes → Bytes
kept ls =
    text (fitting max_output_bytes ls)
    ++ (if ltb max_output_bytes (size ls) then truncation_marker else [])

-- The callback's view: the lines with the numbers from `n` on.
abbrev pub numbered : ℕ → List Bytes → List (Bytes × ℕ)
numbered n [] = []
numbered n (l ∷ ls) = (l ++ newline, n) ∷ numbered (n + 1) ls

abbrev pub calls_of : StreamType → List (StreamType × (Bytes × ℕ)) → List (Bytes × ℕ)
calls_of s [] = []
calls_of s ((t, call) ∷ cs) = if same_stream s t then call ∷ calls_of s cs else calls_of s cs

calls_of-append :
    (s : StreamType) (xs ys : List (StreamType × (Bytes × ℕ)))
    → calls_of s (xs ++ ys) ≡ calls_of s xs ++ calls_of s ys
calls_of-append s [] ys = refl
calls_of-append s ((t, call) ∷ xs) ys = ground (arith, calls_of-append s xs ys)

take_lines-bytes :
    (w : Bool) (s : Stream) (ls : List Bytes) → (take_lines w s ls).bytes ≡ s.bytes + size ls
unfolding take_line
take_lines-bytes w s [] = ground arith
take_lines-bytes w s (l ∷ ls) = ground (arith, take_lines-bytes w (take_line w s l) ls)

-- A stream over the limit keeps what it has.
take_lines_over :
    (w : Bool) (s : Stream) (ls : List Bytes)
    → max_output_bytes < s.bytes
    → (take_lines w s ls).buf ≡ s.buf
unfolding take_line
take_lines_over w s [] h = refl
take_lines_over w s (l ∷ ls) h =
    ground (arith, take_lines_over w (take_line w s l) ls (ground arith))

take_lines_fit :
    (w : Bool) (s : Stream) (n : ℕ) (ls : List Bytes)
    → s.bytes + n ≡ max_output_bytes
    → (take_lines w s ls).buf ≡ s.buf ++ text (fitting n ls)
unfolding take_line
take_lines_fit w s n [] h = ground (arith, append-nil s.buf)
take_lines_fit w s n (l ∷ ls) h = elim (Bool-cases (leb (length l + 1) n)) [
  | inl fits ↦ ground (
    arith,
    take_lines_fit w (take_line w s l) (n - (length l + 1)) ls (ground arith),
    append_assoc s.buf (l ++ newline) (text (fitting (n - (length l + 1)) ls)),
  )
  | inr over ↦
      ground (arith, take_lines_over w (take_line w s l) ls (ground arith), append-nil s.buf)
]

abbrev fresh : Stream
fresh = record { seq = 0; bytes = 0; buf = [] }

shown-take_lines : (w : Bool) (ls : List Bytes) → shown (take_lines w fresh ls) ≡ kept ls
shown-take_lines w ls = ground (
  arith,
  take_lines_fit w fresh max_output_bytes ls (ground arith),
  take_lines-bytes w fresh ls,
  append-nil (text (fitting max_output_bytes ls)),
)

-- With a callback, each line is a call of it, in the order of its stream and numbered in it.
drain_remaining-calls_of :
    (s t : StreamType) (c : Capture) (es : List ChildEvent)
    → calls_of s (drain_remaining true t c es).calls
      ≡ calls_of s c.calls
        ++ (if same_stream s t then numbered (stream_of s c).seq (until_closed s es) else [])
unfolding drain_remaining record_line take_line
drain_remaining-calls_of s t c [] = ground (arith, append-nil (calls_of s c.calls))
drain_remaining-calls_of s t c (sent u line ∷ es) =
    let next = (if same_stream t u then record_line true u c line else c) in
    ground (
      arith,
      drain_remaining-calls_of s t next es,
      calls_of-append s c.calls ((u, (line ++ newline, (stream_of u c).seq)) ∷ []),
      append_assoc (calls_of s c.calls) ((line ++ newline, (stream_of u c).seq) ∷ [])
          (numbered ((stream_of u c).seq + 1) (until_closed s es)),
      append-nil (calls_of s c.calls),
    )
drain_remaining-calls_of s t c (closed_stream u ∷ es) =
    ground (arith, drain_remaining-calls_of s t c es, append-nil (calls_of s c.calls))
drain_remaining-calls_of s t c (ctx_done ∷ es) = drain_remaining-calls_of s t c es

drain-calls_of :
    (s : StreamType) (c : Capture) (es : List ChildEvent)
    → calls_of s (drain true c es).calls
      ≡ calls_of s c.calls ++ numbered (stream_of s c).seq (heard s es)
unfolding drain record_line take_line
drain-calls_of s c [] = sym (append-nil (calls_of s c.calls))
drain-calls_of s c (sent u line ∷ es) = ground (
  arith,
  drain-calls_of s (record_line true u c line) es,
  calls_of-append s c.calls ((u, (line ++ newline, (stream_of u c).seq)) ∷ []),
  append_assoc (calls_of s c.calls) ((line ++ newline, (stream_of u c).seq) ∷ [])
      (numbered ((stream_of u c).seq + 1) (heard s es)),
  append-nil (calls_of s c.calls),
)
drain-calls_of s c (closed_stream u ∷ es) =
    ground (arith, drain_remaining-calls_of s (sibling u) c es, append-nil (calls_of s c.calls))
drain-calls_of s c (ctx_done ∷ es) = sym (append-nil (calls_of s c.calls))

-- Of each stream of a child the result has the lines that were received as far as they fit in
-- MaxOutputBytes, with a marker exactly when they do not, whatever the other stream and the order of arrival;
-- and the callback is given each received line of the stream, in order and numbered from zero.
pub run_streaming-kept :
    (w : Bool) (child : Child) (s : StreamType)
    → (output_of s (run_streaming w child).0 ≡ kept (heard s child.events))
      × (calls_of s (drain true no_capture child.events).calls ≡ numbered 0 (heard s child.events))
unfolding run_streaming
run_streaming-kept w child stream_stdout = (
  ap shown (drain-stream_of w stream_stdout no_capture child.events)
      ∙ shown-take_lines w (heard stream_stdout child.events),
  drain-calls_of stream_stdout no_capture child.events,
)
run_streaming-kept w child stream_stderr = (
  ap shown (drain-stream_of w stream_stderr no_capture child.events)
      ∙ shown-take_lines w (heard stream_stderr child.events),
  drain-calls_of stream_stderr no_capture child.events,
)
