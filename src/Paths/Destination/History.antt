-- ===== src/Paths/Destination/History.antt =====
-- Wipes after a history of fetches and wipes: only what a fetch recorded can be reached.
use power_manage_sdk.Paths.Clean.{is_abs, clean}
use power_manage_sdk.Paths.Destination.Laws.{IsLocated, lexical_checks-IsLocated}
use power_manage_sdk.Paths.Destination.{
  is_managed_root, under_protected, resolves_to_protected, not_recorded, lexical_checks,
  resolved_recorded, wipe_checks, can_wipe, with_resolved, record_dest, removed, without_resolved,
  forget_dest,
}
use power_manage_sdk.Paths.Protected.{is_under_protected_prefix}
use power_manage_sdk.Paths.Resolve.{PathError, Files, resolve_and_validate_path}
use power_manage_sdk.Prelude.{
  trim_space, ◌≡◌, ◌⊎◌, inl, inr, refl, ap, arith, true, false, not, List, [], ◌∷◌, Bytes, equal,
  equal_refl, equal_iff, member, if◌then◌else◌, Result, ok, err, refuse, >>-eq-ok, refuse-eq-ok,
  Bool-cases, Result-cases, or-eq-true,
}

-- What RecordDest and forgetDest are called on, each with the file system of its moment.
pub data Op : Type 0 where
  records forgets : Files → Bytes → Op

abbrev pub remembered : List Bytes → List Op → List Bytes
remembered dests [] = dests
remembered dests (records f p ∷ ops) = remembered (record_dest f dests p) ops
remembered dests (forgets f p ∷ ops) = remembered (forget_dest f dests p) ops

-- `k` is the path as it was written, or what it resolved to.
abbrev pub IsKey : Files → Bytes → Bytes → Type 0
IsKey f p k = (clean (trim_space p) ≡ k) ⊎ (resolve_and_validate_path f (trim_space p) ≡ ok k)

abbrev pub WasRecorded : Bytes → List Op → Type 0
WasRecorded k [] = ⊥
WasRecorded k (records f p ∷ ops) = IsKey f p k ⊎ WasRecorded k ops
WasRecorded k (forgets f p ∷ ops) = WasRecorded k ops

member-with_resolved :
    (k : Bytes) (r : Result PathError Bytes) (dests : List Bytes)
    → member k (with_resolved r dests) ≡ true
    → (r ≡ ok k) ⊎ (member k dests ≡ true)
unfolding member
member-with_resolved k (err e) dests h = inr h
member-with_resolved k (ok p) dests h = elim (or-eq-true (equal p k) (member k dests) h) [
  | inl same ↦ inl (ap ok ((equal_iff p k).0 same))
  | inr before ↦ inr before
]

member-clean :
    (k p : Bytes) (dests : List Bytes)
    → member k (p ∷ dests) ≡ true
    → (p ≡ k) ⊎ (member k dests ≡ true)
unfolding member
member-clean k p dests h = elim (or-eq-true (equal p k) (member k dests) h) [
  | inl same ↦ inl ((equal_iff p k).0 same)
  | inr before ↦ inr before
]

member-record_dest :
    (f : Files) (dests : List Bytes) (p k : Bytes)
    → member k (record_dest f dests p) ≡ true
    → IsKey f p k ⊎ (member k dests ≡ true)
unfolding record_dest
member-record_dest f dests p k h = elim (Bool-cases (is_abs (trim_space p))) [
  | inl located ↦
      elim (member-with_resolved k (resolve_and_validate_path f (trim_space p))
        (clean (trim_space p) ∷ dests) (rw located at h)) [
          | inl resolved ↦ inl (inr resolved)
          | inr rest ↦ elim (member-clean k (clean (trim_space p)) dests rest) [
            | inl written ↦ inl (inl written)
            | inr before ↦ inr before
          ]
        ]
  | inr skipped ↦ inr (rw skipped at h)
]

member-removed :
    (k p : Bytes) (dests : List Bytes) → member k (removed p dests) ≡ true → member k dests ≡ true
unfolding member
member-removed k p [] h = h
member-removed k p (q ∷ dests) h = ground (arith, member-removed k p dests)

member-without_resolved :
    (k : Bytes) (r : Result PathError Bytes) (dests : List Bytes)
    → member k (without_resolved r dests) ≡ true
    → member k dests ≡ true
member-without_resolved k (err e) dests h = h
member-without_resolved k (ok p) dests h = member-removed k p dests h

member-forget_dest :
    (f : Files) (dests : List Bytes) (p k : Bytes)
    → member k (forget_dest f dests p) ≡ true
    → member k dests ≡ true
unfolding forget_dest
member-forget_dest f dests p k h = member-removed k (clean (trim_space p)) dests (
    member-without_resolved k (resolve_and_validate_path f p) (removed (clean (trim_space p)) dests)
      h)

member-remembered :
    (dests : List Bytes) (ops : List Op) (k : Bytes)
    → member k (remembered dests ops) ≡ true
    → WasRecorded k ops ⊎ (member k dests ≡ true)
member-remembered dests [] k h = inr h
member-remembered dests (records f p ∷ ops) k h =
    elim (member-remembered (record_dest f dests p) ops k h) [
      | inl later ↦ inl (inr later)
      | inr here ↦ elim (member-record_dest f dests p k here) [
        | inl key ↦ inl (inl key)
        | inr before ↦ inr before
      ]
    ]
member-remembered dests (forgets f p ∷ ops) k h =
    elim (member-remembered (forget_dest f dests p) ops k h) [
      | inl later ↦ inl later
      | inr here ↦ inr (member-forget_dest f dests p k here)
    ]

abbrev pub IsReached : Files → List Op → Bytes → Type 0
IsReached f ops trim =
    (is_under_protected_prefix f.cwd (clean trim) ≡ false)
    × (WasRecorded (clean trim) ops
        ⊎ ((real : Bytes) × (resolve_and_validate_path f trim ≡ ok real)
            × (is_under_protected_prefix f.cwd real ≡ false)
            × WasRecorded real ops))

from_none : (ops : List Op) (k : Bytes) → member k (remembered [] ops) ≡ true → WasRecorded k ops
unfolding member
from_none ops k h = elim (member-remembered [] ops k h) [ inl was ↦ was | inr never ↦ cc ]

resolved_recorded-eq-ok :
    (f : Files) (dests : List Bytes) (r : Result PathError Bytes)
    → resolved_recorded f dests r ≡ ok tt
    → (real : Bytes) × (r ≡ ok real)
      × (is_under_protected_prefix f.cwd real ≡ false)
      × (member real dests ≡ true)
resolved_recorded-eq-ok f dests (err e) h = cc
resolved_recorded-eq-ok f dests (ok p) h =
    let (out, known) =
      >>-eq-ok (refuse (is_under_protected_prefix f.cwd p) resolves_to_protected)
        (refuse (not (member p dests)) not_recorded) h in
    (
      p,
      refl,
      refuse-eq-ok (is_under_protected_prefix f.cwd p) resolves_to_protected out,
      ground arith,
    )

wipe_checks-IsReached :
    (f : Files) (ops : List Op) (trim : Bytes)
    → wipe_checks f (remembered [] ops) trim ≡ ok tt
    → IsReached f ops trim
wipe_checks-IsReached f ops trim h =
    let known = member (clean trim) (remembered [] ops) in
    let by_target = resolved_recorded f (remembered [] ops) (resolve_and_validate_path f trim) in
    let (lexical, more) =
      >>-eq-ok (refuse (is_under_protected_prefix f.cwd (clean trim)) under_protected)
        (if known then ok tt else by_target) h in
    (
      refuse-eq-ok (is_under_protected_prefix f.cwd (clean trim)) under_protected lexical,
      elim (Bool-cases known) [
        | inl is_known ↦ inl (from_none ops (clean trim) is_known)
        | inr unknown ↦
            let (real, resolves, out, in_set) =
              resolved_recorded-eq-ok f (remembered [] ops) (resolve_and_validate_path f trim)
                (rw unknown at more) in
            inr (real, resolves, out, from_none ops real in_set)
      ],
    )

-- After any fetches and wipes of the process, whatever the file system became between them, a wipe
-- takes a path only when it is absolute, not `/`, and at or below a managed root, or else outside
-- the protected trees as it is written and recorded by an earlier fetch: as it is written, or as
-- what it resolves to, which then is outside them too.
pub can_wipe-IsReached :
    (f : Files) (ops : List Op) (path : Bytes)
    → can_wipe f (remembered [] ops) path ≡ ok tt
    → IsLocated (trim_space path)
      × ((is_managed_root (clean (trim_space path)) ≡ true) ⊎ IsReached f ops (trim_space path))
unfolding can_wipe
can_wipe-IsReached f ops path h =
    let trim = trim_space path in
    let (first, rest) =
      >>-eq-ok (lexical_checks trim)
        (if is_managed_root (clean trim) then ok tt else wipe_checks f (remembered [] ops) trim)
        h in
    (
      (lexical_checks-IsLocated trim).0 first,
      elim (Bool-cases (is_managed_root (clean trim))) [
        | inl managed ↦ inl managed
        | inr unmanaged ↦ inr (wipe_checks-IsReached f ops trim (rw unmanaged at rest))
      ],
    )

member-first : (k : Bytes) (dests : List Bytes) → member k (k ∷ dests) ≡ true
unfolding member
member-first k dests = rw (equal_refl k) refl

member-later :
    (k p : Bytes) (dests : List Bytes) → member k dests ≡ true → member k (p ∷ dests) ≡ true
unfolding member
member-later k p dests h = ground arith

record_dest-member :
    (f : Files) (dests : List Bytes) (p : Bytes)
    → is_abs (trim_space p) ≡ true
    → member (clean (trim_space p)) (record_dest f dests p) ≡ true
unfolding record_dest
record_dest-member f dests p located =
    rw located (elim (Result-cases (resolve_and_validate_path f (trim_space p))) [
      | inl (real, resolves) ↦ rw resolves (
          member-later (clean (trim_space p)) real (clean (trim_space p) ∷ dests)
            (member-first (clean (trim_space p)) dests))
      | inr (e, fails) ↦ rw fails (member-first (clean (trim_space p)) dests)
    ])

-- A wipe takes each path that a fetch recorded, outside the protected trees as it is written,
-- whatever that path resolves to by the time of the wipe.
pub can_wipe-record_dest :
    (f now : Files) (dests : List Bytes) (path : Bytes)
    → IsLocated (trim_space path)
    → is_under_protected_prefix now.cwd (clean (trim_space path)) ≡ false
    → can_wipe now (record_dest f dests path) path ≡ ok tt
unfolding can_wipe
can_wipe-record_dest f now dests path located out =
    rw ((lexical_checks-IsLocated (trim_space path)).1 located)
      (ground (arith, record_dest-member f dests path located.0))
