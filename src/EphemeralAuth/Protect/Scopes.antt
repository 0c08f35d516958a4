-- ===== src/EphemeralAuth/Protect/Scopes.antt =====
-- Scopes of a token.
use orcacommon.Common.{◌≡◌, refl, true, List, [], ◌∷◌, ◌⊎◌, inl, inr, ◌↔◌, arith, All, Bool-cases}
use orcacommon.Common.Text.{Text, text_eq}
use orcacommon.Common.Text.Laws.{text_eq_refl, text_eq_sound}
use orcacommon.EphemeralAuth.Protect.{has_scope, has_required_scopes}

abbrev pub Has : List Text → Text → Type 0
Has [] r = ⊥
Has (s ∷ ss) r = (s ≡ r) ⊎ Has ss r

has_scope_sound : (ss : List Text) (r : Text) → has_scope ss r ≡ true → Has ss r
unfolding has_scope
has_scope_sound [] r h = cc
has_scope_sound (s ∷ ss) r h = elim (Bool-cases (text_eq s r)) [
  | inl e ↦ inl (text_eq_sound s r e)
  | inr e ↦ inr (has_scope_sound ss r (rw e at h))
]

has_scope_complete : (ss : List Text) (r : Text) → Has ss r → has_scope ss r ≡ true
unfolding has_scope
has_scope_complete [] r h = absurd h
has_scope_complete (s ∷ ss) r (inl e) = rw (e, text_eq_refl r) refl
has_scope_complete (s ∷ ss) r (inr h) = ground (arith, has_scope_complete ss r h)

-- The scopes suffice exactly if each required one is among them.
pub has_required_scopes_iff :
    (ss rs : List Text) → (has_required_scopes ss rs ≡ true) ↔ All (Has ss) rs
unfolding has_required_scopes
has_required_scopes_iff ss [] = (λ _. tt, λ _. refl)
has_required_scopes_iff ss (r ∷ rs) =
    let (to, from) = has_required_scopes_iff ss rs in
    elim (Bool-cases (has_scope ss r)) [
      | inl e ↦ (λ h. (has_scope_sound ss r e, to (rw e at h)), λ (_, k). rw e (from k))
      | inr e ↦ (λ h. absurd (cc (rw e at h)), λ (k, _). absurd (cc (e, has_scope_complete ss r k)))
    ]
