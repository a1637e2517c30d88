-- ===== src/Exec/CappedBuffer.antt =====
-- capped_buffer.go: a writer that keeps at most `cap` bytes and says when it dropped some.
-- Its lock makes each method one step, so that concurrent writers give one sequence of writes.
use power_manage_sdk.Prelude.{
  ◌≡◌, refl, sym, arith, ℕ, zero, suc, ◌-◌, ◌≤◌, ◌<◌, Bool, true, false, List, [], ◌∷◌, ◌++◌, Bytes,
  codes, ℤ, to_ℕ, ltb, leb, take_nil, if◌then◌else◌, length, take, take_append_le, take_append_ge,
  take_all, concat, length-append, append_assoc, append-nil, inl, inr, Bool-cases, map,
}

abbrev pub truncation_marker : Bytes
truncation_marker = 10 ∷ codes "[output truncated]"

pub record CappedBuffer : Type 0 where
  pub buf : Bytes
  pub cap : ℕ
  pub truncated : Bool

-- NewCappedBuffer; a negative cap is zero.
unfoldable pub new_capped_buffer : ℤ → CappedBuffer
new_capped_buffer cap = record { buf = []; cap = to_ℕ cap; truncated = false }

-- Write, with the count that it reports.
unfoldable pub write : CappedBuffer → Bytes → CappedBuffer × ℕ
write b p =
    let remaining = b.cap - length b.buf in
    if leb remaining 0
    then ((if ltb 0 (length p) then record b { truncated = true } else b), length p)
    else if ltb remaining (length p)
    then (record b { buf = b.buf ++ take remaining p; truncated = true }, length p)
    else (record b { buf = b.buf ++ p }, length p)

-- String and Bytes, which render alike.
unfoldable pub rendered : CappedBuffer → Bytes
rendered b = if b.truncated then b.buf ++ truncation_marker else b.buf

abbrev pub writes : CappedBuffer → List Bytes → CappedBuffer
writes b [] = b
writes b (p ∷ ps) = writes (write b p).0 ps

abbrev pub counts : CappedBuffer → List Bytes → List ℕ
counts b [] = []
counts b (p ∷ ps) = (write b p).1 ∷ counts (write b p).0 ps

-- What a buffer of this cap holds of an input.
abbrev pub Holds : ℕ → Bytes → CappedBuffer → Type 0
Holds n s b = (b.buf ≡ take n s) × (b.cap ≡ n) × (b.truncated ≡ ltb n (length s))

length-take : (n : ℕ) (s : Bytes) → length (take n s) ≡ (if leb n (length s) then n else length s)
length-take zero s = ground arith
length-take (suc n) [] = ground arith
length-take (suc n) (x ∷ s) = ground (arith, length-take n s)

-- The three ways a write goes, each for a buffer that holds `s`.
write_over :
    (n : ℕ) (s p : Bytes) (b : CappedBuffer)
    → n ≤ length s
    → Holds n s b
    → Holds n (s ++ p) (write b p).0
unfolding write
write_over n s p b h held =
    ground (arith, length-take n s, length-append s p, take_append_le n s p h)

write_fits :
    (n : ℕ) (s p : Bytes) (b : CappedBuffer)
    → length s < n
    → Holds n s b
    → Holds n (s ++ p) (write b p).0
unfolding write
write_fits n s p b h held = ground (
  arith,
  length-take n s,
  length-append s p,
  take_append_ge n s p (omega arith),
  take_all n s (omega arith),
  take_all (n - length s) p,
)

write-Holds :
    (n : ℕ) (s p : Bytes) (b : CappedBuffer) → Holds n s b → Holds n (s ++ p) (write b p).0
write-Holds n s p b held = elim (Bool-cases (leb n (length s))) [
  | inl over ↦ write_over n s p b (ground arith) held
  | inr fits ↦ write_fits n s p b (ground arith) held
]

writes-Holds :
    (n : ℕ) (ps : List Bytes) (s : Bytes) (b : CappedBuffer)
    → Holds n s b
    → Holds n (s ++ concat ps) (writes b ps)
writes-Holds n [] s b held = rw (append-nil s) held
writes-Holds n (p ∷ ps) s b held =
    rw (sym (append_assoc s p (concat ps)))
      (writes-Holds n ps (s ++ p) (write b p).0 (write-Holds n s p b held))

write_count : (b : CappedBuffer) (p : Bytes) → (write b p).1 ≡ length p
unfolding write
write_count b p = ground arith

counts-length : (b : CappedBuffer) (ps : List Bytes) → counts b ps ≡ map length ps
counts-length b [] = refl
counts-length b (p ∷ ps) = ground (arith, write_count b p, counts-length (write b p).0 ps)

-- Whatever pieces the input is written in, a buffer renders it whole when it has at most `cap`
-- bytes, else its first `cap` bytes and one marker; and no write reports less than it was given.
pub capped-input :
    (limit : ℤ) (ps : List Bytes)
    → (rendered (writes (new_capped_buffer limit) ps) ≡ (
        if ltb (to_ℕ limit) (length (concat ps))
        then take (to_ℕ limit) (concat ps) ++ truncation_marker
        else concat ps))
      × (counts (new_capped_buffer limit) ps ≡ map length ps)
unfolding rendered new_capped_buffer
capped-input limit ps =
    let n = to_ℕ limit in
    let (kept, same, cut) =
      writes-Holds n ps [] (new_capped_buffer limit) (sym (take_nil n), refl, ground arith) in
    (
      elim (Bool-cases (ltb n (length (concat ps)))) [
        | inl over ↦ ground (arith)
        | inr fits ↦ ground (arith, take_all n (concat ps) (ground arith))
      ],
      counts-length (new_capped_buffer limit) ps,
    )
