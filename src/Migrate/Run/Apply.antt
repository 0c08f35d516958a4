-- ===== src/Migrate/Run/Apply.antt =====
-- Migrations are applied in their order, up to the first that fails.
use orcacommon.Common.{◌≡◌, refl, true, false, List, [], ◌∷◌, ◌++◌, ◌⊎◌, inl, inr, Bool-cases, ap}
use orcacommon.Common.Text.{Text}
use orcacommon.Migrate.Run.{Options, Atlas, Outcome, done, apply_failed, apply_pending}

module _ {S D : Type 0} (atlas : Atlas S D) (opts : Options) (dir : D) where
  -- All of the files succeed, one after the other.
  pub data Applied : List Text → S → S → Type 0 where
    nothing : {s : S} → Applied [] s s
    next :
        {v : Text} {vs : List Text} {s end : S}
        → (atlas.execute opts dir v s).0 ≡ true
        → Applied vs (atlas.execute opts dir v s).1 end
        → Applied (v ∷ vs) s end

  -- All are applied, or those before the first that fails; none after it is tried.
  abbrev pub IsApplied : List Text → S → Outcome × S → Type 0
  IsApplied vs s (out, end) =
      ((out ≡ done) × Applied vs s end)
      ⊎ ((before after : List Text) × (v : Text) × (mid : S) × (vs ≡ before ++ v ∷ after)
          × Applied before s mid
          × ((atlas.execute opts dir v mid).0 ≡ false)
          × (out ≡ apply_failed v)
          × (end ≡ (atlas.execute opts dir v mid).1))

  after_first :
      (v : Text) (vs : List Text) (s : S) (r : Outcome × S)
      → (atlas.execute opts dir v s).0 ≡ true
      → IsApplied vs (atlas.execute opts dir v s).1 r
      → IsApplied (v ∷ vs) s r
  after_first v vs s r e (inl (out, rest)) = inl (out, next e rest)
  after_first v vs s r e (inr (before, after, u, mid, split, rest, failed, out, end)) =
      inr (v ∷ before, after, u, mid, ap (λ us. v ∷ us) split, next e rest, failed, out, end)

  -- The pending files are applied in their order up to the first that fails, whose version is in
  -- the error; without a failure all are applied.
  pub apply_pending-IsApplied :
      (vs : List Text) (s : S) → IsApplied vs s (apply_pending atlas opts dir vs s)
  unfolding apply_pending
  apply_pending-IsApplied [] s = inl (refl, nothing)
  apply_pending-IsApplied (v ∷ vs) s = elim (Bool-cases (atlas.execute opts dir v s).0) [
    | inl e ↦
        rw (e, apply_pending)
          (after_first v vs s _ e (apply_pending-IsApplied vs (atlas.execute opts dir v s).1))
    | inr e ↦ rw (e, apply_pending) (inr ([], vs, v, s, refl, nothing, e, refl, refl))
  ]
