-- ===== src/Crypto/FieldContext/Laws.antt =====
-- What the contexts of two fields have in common.
use power_manage_sdk.Crypto.FieldContext.{
  invalid_direction, empty_segment, agent_to_control, control_to_agent, encode_segment,
  encode_segments, context_segments, field_seal_context,
}
use power_manage_sdk.Prelude.{
  ℕ, true, false, not, ◌&&◌, ◌==◌, ◌≡◌, refl, sym, ap, ◌∙◌, ◌↔◌, arith, List, [], ◌∷◌, ◌++◌, Bytes,
  equal, is_empty, any, all, length, decimal, decimal-injective, decimal_cons, all-decimal, Option,
  some, ok, refuse, ◌>>◌, cut_at, cut_at-append, append_assoc, append_injective, is_digit, ◌⊎◌,
  is_ok, equal_iff, >>-eq-ok, ok_injective, Bool-cases,
}

digits_no_colon : (ds : Bytes) → all is_digit ds ≡ true → any (λ c. c == b':') ds ≡ false
digits_no_colon [] h = refl
digits_no_colon (d ∷ ds) h = ground (arith, digits_no_colon ds)

cut_segment :
    (segment rest : Bytes)
    → cut_at b':' (encode_segment segment ++ rest)
      ≡ some (decimal (length segment), segment ++ rest)
unfolding encode_segment
cut_segment segment rest =
    ap (cut_at b':') (append_assoc (decimal (length segment)) (b':' ∷ segment) rest)
    ∙ cut_at-append b':' (decimal (length segment)) (segment ++ rest)
        (digits_no_colon (decimal (length segment)) (all-decimal (length segment)))

-- A segment ends where its length says.
encode_segment-injective :
    (s t us vs : Bytes) → encode_segment s ++ us ≡ encode_segment t ++ vs → (s ≡ t) × (us ≡ vs)
encode_segment-injective s t us vs h =
    let cuts : ◌≡◌ {A = Option (Bytes × Bytes)} (some (decimal (length s), s ++ us))
        (some (decimal (length t), t ++ vs)) =
      sym (cut_segment s us) ∙ ap (cut_at b':') h ∙ cut_segment t vs in
    let lengths : length s ≡ length t = decimal-injective (length s) (length t) cc in
    append_injective s t us vs lengths cc

encode_segment_cons : (s : Bytes) → (c : ℕ) × (rest : Bytes) × (encode_segment s ≡ c ∷ rest)
unfolding encode_segment
encode_segment_cons s =
    let (c, rest, e) = decimal_cons (length s) in (c, rest ++ (b':' ∷ s), rw e refl)

encode_segments-injective : (ss ts : List Bytes) → encode_segments ss ≡ encode_segments ts → ss ≡ ts
unfolding encode_segments
encode_segments-injective [] [] h = refl
encode_segments-injective [] (t ∷ ts) h = let (c, rest, e) = encode_segment_cons t in cc
encode_segments-injective (s ∷ ss) [] h = let (c, rest, e) = encode_segment_cons s in cc
encode_segments-injective (s ∷ ss) (t ∷ ts) h =
    let (first, more) = encode_segment-injective s t (encode_segments ss) (encode_segments ts) h in
    let rest = encode_segments-injective ss ts more in cc

field_seal_context-eq-ok :
    (direction message field : Bytes) (bindings : List Bytes) (aad info : Bytes)
    → field_seal_context direction message field bindings ≡ ok (aad, info)
    → (encode_segments (context_segments direction message field bindings) ≡ aad)
      × (encode_segments (context_segments direction message field []) ≡ info)
unfolding field_seal_context
field_seal_context-eq-ok direction message field bindings aad info h =
    let (_, unempty) =
      >>-eq-ok
        (refuse (not (equal direction agent_to_control) && not (equal direction control_to_agent))
            invalid_direction
          >> refuse (any is_empty (context_segments direction message field bindings))
              empty_segment)
        (ok (
          encode_segments (context_segments direction message field bindings),
          encode_segments (context_segments direction message field []),
        ))
        h in
    let both = ok_injective unempty in
    (ap (λ (p : Bytes × Bytes). p.0) both, ap (λ (p : Bytes × Bytes). p.1) both)

-- What goes into a context: the same authenticated data means the same direction, message, field
-- and bindings, and the same info the same first three. So no two sealed fields share either.
pub field_seal_context-injective :
    (direction direction' message message' field field' : Bytes) (bindings bindings' : List Bytes)
    (aad aad' info info' : Bytes)
    → field_seal_context direction message field bindings ≡ ok (aad, info)
    → field_seal_context direction' message' field' bindings' ≡ ok (aad', info')
    → ((aad ≡ aad') ↔ (
        (direction ≡ direction')
        × (message ≡ message')
        × (field ≡ field')
        × (bindings ≡ bindings')))
      × ((info ≡ info') ↔ ((direction ≡ direction') × (message ≡ message') × (field ≡ field')))
field_seal_context-injective direction direction' message message' field field' bindings bindings'
      aad aad' info info' h h' =
    let (e, i) = field_seal_context-eq-ok direction message field bindings aad info h in
    let (e', i') = field_seal_context-eq-ok direction' message' field' bindings' aad' info' h' in
    (
      (
        λ same.
            let segments =
              encode_segments-injective (context_segments direction message field bindings)
                (context_segments direction' message' field' bindings') (e ∙ same ∙ sym e') in
            (cc, cc, cc, cc),
        λ (d, m, f, b). sym e ∙ rw (d, m, f, b) e',
      ),
      (
        λ same.
            let segments =
              encode_segments-injective (context_segments direction message field [])
                (context_segments direction' message' field' []) (i ∙ same ∙ sym i') in
            (cc, cc, cc),
        λ (d, m, f). sym i ∙ rw (d, m, f) i',
      ),
    )

-- A context is made exactly for one of the two directions and no empty part.
pub field_seal_context_ok :
    (direction message field : Bytes) (bindings : List Bytes)
    → (is_ok (field_seal_context direction message field bindings) ≡ true) ↔ (
        ((direction ≡ agent_to_control) ⊎ (direction ≡ control_to_agent))
        × (any is_empty (message ∷ field ∷ bindings) ≡ false))
unfolding field_seal_context
field_seal_context_ok direction message field bindings = ground (
  arith,
  equal_iff direction agent_to_control,
  equal_iff direction control_to_agent,
  Bool-cases (is_empty direction),
)
