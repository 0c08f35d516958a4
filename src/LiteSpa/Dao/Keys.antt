-- ===== src/LiteSpa/Dao/Keys.antt =====
-- Which names have a key, and which.
use orcacommon.Common.{
  ◌≡◌, ◌↔◌, refl, sym, ap, ◌∙◌, some, List, [], ◌∷◌, ◌++◌, All, Bool-cases, inl, inr, ◌⊎◌, is_empty,
  is_empty_sound,
}
use orcacommon.Common.Text.{Text, codes, join, trim_space}
use orcacommon.LiteSpa.Dao.{setting_version_key, is_valid_name, version_key}
use orcacommon.LiteSpa.Dao.Segments.{IsSegment, IsName-empty, is_valid_name_iff}

-- The key of a name that is empty, or segments with dots between them.
abbrev pub IsKey : Text → Text → Type 0
IsKey name key =
    ((name ≡ []) × (key ≡ codes "frontend.version"))
    ⊎ ((segment : Text) × (segments : List Text) × All IsSegment (segment ∷ segments)
        × (name ≡ join (segment ∷ segments) (codes "."))
        × (key ≡ join (codes "frontend" ∷ codes "version" ∷ segment ∷ segments) (codes ".")))

longer_key :
    (segment : Text) (segments : List Text)
    → join (codes "frontend" ∷ codes "version" ∷ segment ∷ segments) (codes ".")
      ≡ setting_version_key ++ b'.' ∷ join (segment ∷ segments) (codes ".")
unfolding join
longer_key segment segments = refl

-- A frontend name has a key exactly if, without the white space around it, it is empty or it is
-- segments of letters, digits, underscores and hyphens, none of them empty, with single dots between
-- them; the key is `frontend.version`, with these segments appended as further ones.
pub version_key_iff : (a key : Text) → (version_key a ≡ some key) ↔ IsKey (trim_space a) key
unfolding version_key
version_key_iff a key = elim (Bool-cases (is_empty (trim_space a))) [
  | inl e ↦
      let blank : trim_space a ≡ [] = is_empty_sound (trim_space a) e in
      rw (e, version_key)
        (
          λ p. inl (blank, cc p),
          λ k. elim k [
            | inl (_, same) ↦ ap some (sym same)
            | inr (p, ps, ok, name, _) ↦ absurd (IsName-empty (p, ps, ok, sym blank ∙ name))
          ],
        )
  | inr e ↦ elim (Bool-cases (is_valid_name (trim_space a))) [
    | inl v ↦
        let (p, ps, ok, name) = (is_valid_name_iff (trim_space a)).0 v in
        rw (e, version_key, v)
          (
            λ h. inr (
              p,
              ps,
              ok,
              name,
              sym (cc h) ∙ (ap (λ n. setting_version_key ++ b'.' ∷ n) name ∙ sym (longer_key p ps)),
            ),
            λ k. elim k [
              | inl (blank, _) ↦ absurd (cc (sym e ∙ ap is_empty blank))
              | inr (q, qs, _, name', same) ↦ ap some (
                  ap (λ n. setting_version_key ++ b'.' ∷ n) name'
                  ∙ (sym (longer_key q qs) ∙ sym same))
            ],
          )
    | inr v ↦
        rw (e, version_key, v)
          (
            λ h. absurd (cc h),
            λ k. elim k [
              | inl (blank, _) ↦ absurd (cc (sym e ∙ ap is_empty blank))
              | inr (q, qs, ok, name, _) ↦
                  absurd (cc (sym v ∙ (is_valid_name_iff (trim_space a)).1 (q, qs, ok, name)))
            ],
          )
  ]
]
