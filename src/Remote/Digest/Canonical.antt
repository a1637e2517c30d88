-- ===== src/Remote/Digest/Canonical.antt =====
-- The text that is hashed tells trees apart.
use power_manage_sdk.Remote.Digest.{
  Entry, big_endian, insert, sorted, less, header, content, both, after_header, canonical, hashed,
  sha256_tree,
}
use power_manage_sdk.Prelude.{
  ℕ, zero, suc, ◌+◌, ◌*◌, ◌/◌, ◌%◌, ◌^◌, ◌<◌, ◌≡◌, refl, sym, ap, ◌∙◌, arith, false, Option, none,
  some, List, [], ◌∷◌, ◌++◌, append_assoc, append_injective, Bytes, length, length-append, All,
  Bool-cases, Option-cases, inl, inr, ◌⊎◌, ◌≢◌, equal, equal_iff,
}

abbrev read : ℕ → Bytes → ℕ
read acc [] = acc
read acc (c ∷ s) = read (acc * 256 + c) s

read-append : (acc c : ℕ) (s : Bytes) → read acc (s ++ (c ∷ [])) ≡ read acc s * 256 + c
read-append acc c [] = refl
read-append acc c (d ∷ s) = read-append (acc * 256 + d) c s

-- A number that fits into the bytes is read back.
read-big_endian : (width n : ℕ) → n < 256 ^ width → read 0 (big_endian width n) ≡ n
unfolding big_endian
read-big_endian zero n h = ground arith
read-big_endian (suc width) n h =
    let back = read-big_endian width (n / 256) (ground arith) in
    read-append 0 (n % 256) (big_endian width (n / 256)) ∙ omega (arith, back)

length-big_endian : (width n : ℕ) → length (big_endian width n) ≡ width
unfolding big_endian
length-big_endian zero n = refl
length-big_endian (suc width) n = omega (
  arith,
  length-append (big_endian width (n / 256)) (n % 256 ∷ []),
  length-big_endian width (n / 256),
)

big_endian-injective :
    (width m n : ℕ) (us vs : Bytes)
    → m < 256 ^ width
    → n < 256 ^ width
    → big_endian width m ++ us ≡ big_endian width n ++ vs
    → (m ≡ n) × (us ≡ vs)
big_endian-injective width m n us vs mb nb h =
    let (same, rest) =
      append_injective (big_endian width m) (big_endian width n) us vs
        (length-big_endian width m ∙ sym (length-big_endian width n)) h in
    (sym (read-big_endian width m mb) ∙ ap (read 0) same ∙ read-big_endian width n nb, rest)

-- A file whose numbers fit into their fields and that was read whole, as it was listed.
abbrev pub IsWhole : Entry → Type 0
IsWhole e =
    (length e.rel < 256 ^ 4)
    × (e.mode < 256 ^ 4)
    × (e.size < 256 ^ 8)
    × ((s : Bytes) × (e.body ≡ some s) × (length s ≡ e.size))

content-IsWhole : (e : Entry) (s : Bytes) → e.body ≡ some s → length s ≡ e.size → content e ≡ some s
content-IsWhole e [] b n = ground arith
content-IsWhole e (c ∷ s) b n = ground arith

-- What an entry writes, in front of the rest.
abbrev written : Entry → Bytes → Bytes → Bytes
written e s rest =
    big_endian 4 (length e.rel)
    ++ (e.rel ++ (big_endian 4 e.mode ++ (big_endian 8 e.size ++ (s ++ rest))))

regroup : (e : Entry) (s rest : Bytes) → (header e ++ s) ++ rest ≡ written e s rest
regroup e s rest = simp (append_assoc)

canonical-cons :
    (e : Entry) (es : List Entry) (s t : Bytes)
    → e.body ≡ some s
    → length s ≡ e.size
    → canonical (e ∷ es) ≡ some t
    → (rest : Bytes) × (canonical es ≡ some rest) × (t ≡ written e s rest)
unfolding canonical
canonical-cons e es s t b n h =
    let front : after_header (header e) (content e) ≡ some (header e ++ s) =
      ap (after_header (header e)) (content-IsWhole e s b n) in
    elim (Option-cases (canonical es)) [
      | inl failed ↦
          let stops : ◌≡◌ {A = Option Bytes} (some t) none =
            sym h
            ∙ ap (λ (o : Option Bytes). both o (canonical es)) front
            ∙ ap (both (some (header e ++ s))) failed in
          cc
      | inr (rest, more) ↦
          let text : ◌≡◌ {A = Option Bytes} (some t) (some ((header e ++ s) ++ rest)) =
            sym h
            ∙ ap (λ (o : Option Bytes). both o (canonical es)) front
            ∙ ap (both (some (header e ++ s))) more in
          let same : t ≡ (header e ++ s) ++ rest = cc in (rest, more, same ∙ regroup e s rest)
    ]

written-injective :
    (e f : Entry) (s r us vs : Bytes)
    → IsWhole e
    → IsWhole f
    → e.body ≡ some s
    → f.body ≡ some r
    → length s ≡ e.size
    → length r ≡ f.size
    → written e s us ≡ written f r vs
    → (e ≡ f) × (us ≡ vs)
written-injective e f s r us vs (el, em, es, _) (fl, fm, fs, _) eb fb en fn h =
    let (lengths, h1) = big_endian-injective 4 (length e.rel) (length f.rel) _ _ el fl h in
    let (rels, h2) = append_injective e.rel f.rel _ _ lengths h1 in
    let (modes, h3) = big_endian-injective 4 e.mode f.mode _ _ em fm h2 in
    let (sizes, h4) = big_endian-injective 8 e.size f.size _ _ es fs h3 in
    let (bodies, h5) = append_injective s r us vs (en ∙ sizes ∙ sym fn) h4 in
    let same_body : e.body ≡ f.body = eb ∙ ap some bodies ∙ sym fb in (cc, h5)

written_not_nil : (e : Entry) (s rest : Bytes) → [] ≢ written e s rest
written_not_nil e s rest h =
    let count =
      length-append (big_endian 4 (length e.rel))
        (e.rel ++ (big_endian 4 e.mode ++ (big_endian 8 e.size ++ (s ++ rest)))) in
    let four = length-big_endian 4 (length e.rel) in let none_there = ap length h in omega arith

-- Files that were read whole are what the text says they are.
canonical-injective :
    (es fs : List Entry) (t : Bytes)
    → All IsWhole es
    → All IsWhole fs
    → canonical es ≡ some t
    → canonical fs ≡ some t
    → es ≡ fs
unfolding canonical
canonical-injective [] [] t we wf he hf = refl
canonical-injective [] (f ∷ fs) t we ((fl, fm, fs', (r, fb, fn)), wf) he hf =
    let (rest, _, shape) = canonical-cons f fs r t fb fn hf in
    let empty : [] ≡ written f r rest = cc in elim (written_not_nil f r rest empty) [ ]
canonical-injective (e ∷ es) [] t ((el, em, es', (s, eb, en)), we) wf he hf =
    let (rest, _, shape) = canonical-cons e es s t eb en he in
    let empty : [] ≡ written e s rest = cc in elim (written_not_nil e s rest empty) [ ]
canonical-injective (e ∷ es) (f ∷ fs) t (whole, we) (solid, wf) he hf =
    let (s, eb, en) = whole.3 in
    let (r, fb, fn) = solid.3 in
    let (us, hu, tu) = canonical-cons e es s t eb en he in
    let (vs, hv, tv) = canonical-cons f fs r t fb fn hf in
    let (first, more) = written-injective e f s r us vs whole solid eb fb en fn (sym tu ∙ tv) in
    let others = canonical-injective es fs us we wf hu (hv ∙ ap some (sym more)) in
    ap (λ (x : Entry). x ∷ es) first ∙ ap (◌∷◌ f) others

All-insert : (e : Entry) (es : List Entry) → IsWhole e → All IsWhole es → All IsWhole (insert e es)
All-insert e [] h _ = (h, tt)
All-insert e (f ∷ fs) h (g, rest) = elim (Bool-cases (less f.rel e.rel)) [
  | inl later ↦ rw later (g, All-insert e fs h rest)
  | inr here ↦ rw here (h, (g, rest))
]

All-sorted : (es : List Entry) → All IsWhole es → All IsWhole (sorted es)
All-sorted [] _ = tt
All-sorted (e ∷ es) (h, rest) = All-insert e (sorted es) h (All-sorted es rest)

hashed_from :
    (hex_hash : Bytes → Bytes) (files : List Entry) (digest : Bytes)
    → sha256_tree hex_hash (some files) ≡ some digest
    → (text : Bytes) × (canonical (sorted files) ≡ some text) × (hex_hash text ≡ digest)
unfolding sha256_tree
hashed_from hex_hash files digest h = elim (Option-cases (canonical (sorted files))) [
  | inl failed ↦
      let stops : ◌≡◌ {A = Option Bytes} (some digest) none = sym h ∙ ap (hashed hex_hash) failed in
      cc
  | inr (text, made) ↦
      let same : ◌≡◌ {A = Option Bytes} (some digest) (some (hex_hash text)) =
        sym h ∙ ap (hashed hex_hash) made in
      (text, made, cc)
]

different_texts : (a b : Bytes) → equal a b ≡ false → a ≢ b
different_texts a b h same = let yes_equal = (equal_iff a b).1 same in cc

-- Two trees with the same digest hold the same files, with the same permissions and contents, or
-- two different texts have been found that SHA-256 takes to the same value.
pub sha256_tree-injective :
    (hex_hash : Bytes → Bytes) (files others : List Entry) (digest : Bytes)
    → All IsWhole files
    → All IsWhole others
    → sha256_tree hex_hash (some files) ≡ some digest
    → sha256_tree hex_hash (some others) ≡ some digest
    → (sorted files ≡ sorted others)
      ⊎ ((a : Bytes) × (b : Bytes) × (a ≢ b) × (hex_hash a ≡ hex_hash b))
sha256_tree-injective hex_hash files others digest we wo he ho =
    let (text, made, from) = hashed_from hex_hash files digest he in
    let (second, done, to) = hashed_from hex_hash others digest ho in
    elim (Bool-cases (equal text second)) [
      | inl same ↦ inl (
          canonical-injective (sorted files) (sorted others) text (All-sorted files we)
            (All-sorted others wo) made (done ∙ ap some (sym ((equal_iff text second).0 same))))
      | inr different ↦ inr (text, second, different_texts text second different, from ∙ sym to)
    ]
