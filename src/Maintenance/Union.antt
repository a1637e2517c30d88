-- ===== src/Maintenance/Union.antt =====
-- Union and IsAllowed over several windows.
use power_manage_sdk.Maintenance.Validity.{IsEntry, validate-IsEntry}
use power_manage_sdk.Maintenance.{
  Entry, Time, Window, validate, entries, is_unconstrained, no_entry, is_allowed, entry_allows,
  joined, union,
}
use power_manage_sdk.Prelude.{
  ◌≡◌, inl, inr, refl, arith, true, false, Bool, List, Option, some, [], ◌∷◌, any, ok, Bool-cases,
  All, any-append, All-append, ◌∙◌,
}

abbrev allowed : Time → Option Window → Bool
allowed t w = is_allowed w t

-- Some entry of the list allows the moment.
abbrev hit : Time → List (Option Entry) → Bool
hit t es = any (λ e. entry_allows e t) es

any_unconstrained :
    (ws : List (Option Window)) (t : Time)
    → any is_unconstrained ws ≡ true
    → any (allowed t) ws ≡ true
unfolding is_allowed
any_unconstrained [] t h = cc
any_unconstrained (w ∷ ws) t h = ground (arith, any_unconstrained ws t)

hit-joined :
    (ws : List (Option Window)) (t : Time)
    → any is_unconstrained ws ≡ false
    → hit t (joined ws) ≡ any (allowed t) ws
unfolding is_allowed
hit-joined [] t h = refl
hit-joined (w ∷ ws) t h =
    any-append (λ e. entry_allows e t) (entries w) (joined ws) ∙ ground (arith, hit-joined ws t)

joined-no_entry :
    (w : Option Window) (ws : List (Option Window))
    → is_unconstrained w ≡ false
    → no_entry (joined (w ∷ ws)) ≡ false
joined-no_entry w ws h = ground arith

is_allowed_constrained :
    (w : Option Window) (t : Time) → is_unconstrained w ≡ false → is_allowed w t ≡ hit t (entries w)
unfolding is_allowed
is_allowed_constrained w t h = rw h

-- The union of at least one window allows exactly the moments that one of them allows.
pub is_allowed-union :
    (w : Option Window) (ws : List (Option Window)) (t : Time)
    → is_allowed (some (union (w ∷ ws))) t ≡ any (λ v. is_allowed v t) (w ∷ ws)
unfolding union
is_allowed-union w ws t = elim (Bool-cases (any is_unconstrained (w ∷ ws))) [
  | inl open_ ↦
      rw (any_unconstrained (w ∷ ws) t open_) (rw (open_, union) (unfold is_allowed in refl))
  | inr closed ↦
      rw (closed, union)
        (is_allowed_constrained (some (record { schedule = joined (w ∷ ws) })) t
            (joined-no_entry w ws (ground arith))
          ∙ hit-joined (w ∷ ws) t closed)
]

joined-IsEntry :
    (ws : List (Option Window)) → All (λ w. validate w ≡ ok tt) ws → All IsEntry (joined ws)
joined-IsEntry [] h = tt
joined-IsEntry (w ∷ ws) (h, t) =
    All-append IsEntry (entries w) (joined ws) ((validate-IsEntry w).0 h) (joined-IsEntry ws t)

-- The union of windows that pass `Validate` passes it.
pub validate-union :
    (ws : List (Option Window))
    → All (λ w. validate w ≡ ok tt) ws
    → validate (some (union ws)) ≡ ok tt
unfolding union
validate-union ws h = elim (Bool-cases (any is_unconstrained ws)) [
  | inl open_ ↦ (validate-IsEntry (some (union ws))).1 (rw (open_, union) tt)
  | inr closed ↦ (validate-IsEntry (some (union ws))).1 (rw (closed, union) (joined-IsEntry ws h))
]
