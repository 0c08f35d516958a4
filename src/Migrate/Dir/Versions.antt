-- ===== src/Migrate/Dir/Versions.antt =====
-- The versions of migrations, by their names and as the loop of `embedDir` sees them.
use orcacommon.Common.{
  ◌≡◌, ◌≢◌, refl, if◌then◌else◌, true, false, some, List, [], ◌∷◌, is_empty, All, ◌↔◌, ◌++◌, sym,
  ap, ◌∙◌, subst, is_empty_sound, Bool-cases, Option-cases, inl, inr,
}
use orcacommon.Common.Text.{Text, codes, cut, has_byte, has_suffix}
use orcacommon.Common.Text.Laws.{cut-append, cut_sound, has_suffix-append, has_suffix_sound}
use orcacommon.Migrate.Dir.{Entry, version_prefix, guarded_version}

-- The versions of the migrations in a directory.
unfoldable pub versions : List Entry → List Text
versions [] = []
versions (e ∷ rest) =
    if e.is_dir
    then versions rest
    else if is_empty (guarded_version e.name)
    then versions rest
    else guarded_version e.name ∷ versions rest

abbrev pub Distinct : List Text → Type 0
Distinct [] = Unit
Distinct (v ∷ vs) = All (λ u. v ≢ u) vs × Distinct vs

-- `v` is the version of a migration: the text before the first underscore of a name that ends in
-- `.sql`, and not empty.
abbrev pub IsMigration : Text → Text → Type 0
IsMigration v name =
    (v ≢ [])
    × (has_byte b'_' v ≡ false)
    × ((rest : Text) × (name ≡ v ++ b'_' ∷ rest))
    × ((stem : Text) × (name ≡ stem ++ codes ".sql"))

abbrev pub IsFile : Entry → Type 0
IsFile e = e.is_dir ≡ false

-- No two files of a directory are migrations of one version.
abbrev pub NoneTwice : List Entry → Type 0
NoneTwice [] = Unit
NoneTwice (e ∷ rest) =
    (IsFile e
      → (v : Text) → IsMigration v e.name
      → All (λ d. IsFile d → IsMigration v d.name → ⊥) rest)
    × NoneTwice rest

guarded_version-append :
    (v rest stem name : Text)
    → has_byte b'_' v ≡ false
    → name ≡ v ++ b'_' ∷ rest
    → name ≡ stem ++ codes ".sql"
    → guarded_version name ≡ v
unfolding guarded_version version_prefix
guarded_version-append v rest stem name h e f =
    let ends : has_suffix name (codes ".sql") ≡ true =
      ap (λ n. has_suffix n (codes ".sql")) f ∙ has_suffix-append stem (codes ".sql") in
    let halves : cut b'_' name ≡ some (v, rest) = ap (cut b'_') e ∙ cut-append b'_' v rest h in
    rw (guarded_version, version_prefix, ends, halves) refl

guarded-IsMigration : (v name : Text) → guarded_version name ≡ v → v ≢ [] → IsMigration v name
unfolding guarded_version version_prefix
guarded-IsMigration v name g full = elim (Bool-cases (has_suffix name (codes ".sql"))) [
  | inr e ↦ absurd (full (cc (rw (e, guarded_version) at g)))
  | inl e ↦ elim (Option-cases (cut b'_' name)) [
    | inl c ↦ absurd (full (cc (rw (e, guarded_version, version_prefix, c) at g)))
    | inr ((u, rest), c) ↦
        let same : u ≡ v = rw (e, guarded_version, version_prefix, c) at g in
        let (sound, free) = cut_sound b'_' name u rest c in
        (
          full,
          subst (λ t. has_byte b'_' t ≡ false) same free,
          (rest, subst (λ t. name ≡ t ++ b'_' ∷ rest) same sound),
          has_suffix_sound name (codes ".sql") e,
        )
  ]
]

IsMigration-guarded : (v name : Text) → IsMigration v name → guarded_version name ≡ v
IsMigration-guarded v name (full, free, (rest, e), (stem, f)) =
    guarded_version-append v rest stem name free e f

-- A version that does not come again.
others_iff :
    (v : Text) (rest : List Entry)
    → v ≢ []
    → All (λ u. v ≢ u) (versions rest) ↔ All (λ d. IsFile d → IsMigration v d.name → ⊥) rest
unfolding versions
others_iff v [] full = (λ _. tt, λ _. tt)
others_iff v (d ∷ rest) full =
    let (to, back) = others_iff v rest full in
    elim (Bool-cases d.is_dir) [
      | inl sub ↦ rw (sub, versions) (λ h. ((λ file _. cc (sub, file)), to h), λ (_, h). back h)
      | inr file ↦ elim (Bool-cases (is_empty (guarded_version d.name))) [
        | inl empty ↦
            rw (file, empty, versions)
              (
                λ h. (
                  (λ _ m. full (
                      sym (IsMigration-guarded v d.name m)
                      ∙ is_empty_sound (guarded_version d.name) empty)),
                  to h,
                ),
                λ (_, h). back h,
              )
        | inr other ↦
            rw (file, other, versions)
              (
                λ (ne, h). ((λ _ m. ne (sym (IsMigration-guarded v d.name m))), to h),
                λ (ne, h). ((λ e. ne refl (guarded-IsMigration v d.name (sym e) full)), back h),
              )
      ]
    ]

pub NoneTwice-iff : (entries : List Entry) → Distinct (versions entries) ↔ NoneTwice entries
unfolding versions
NoneTwice-iff [] = (λ _. tt, λ _. tt)
NoneTwice-iff (e ∷ rest) =
    let (to, back) = NoneTwice-iff rest in
    elim (Bool-cases e.is_dir) [
      | inl sub ↦
          rw (sub, versions) (λ h. ((λ file. absurd (cc (sub, file))), to h), λ (_, h). back h)
      | inr file ↦ elim (Bool-cases (is_empty (guarded_version e.name))) [
        | inl empty ↦
            rw (file, empty, versions)
              (
                λ h. (
                  (λ _ v m. absurd (
                      m.0 (
                        sym (IsMigration-guarded v e.name m)
                        ∙ is_empty_sound (guarded_version e.name) empty))),
                  to h,
                ),
                λ (_, h). back h,
              )
        | inr other ↦
            let v = guarded_version e.name in
            let full : v ≢ [] = λ z. cc (sym other ∙ ap is_empty z) in
            rw (file, other, versions)
              (
                λ (fresh, h). (
                  (λ _ u m.
                      subst (λ t. All (λ d. IsFile d → IsMigration t d.name → ⊥) rest)
                        (IsMigration-guarded u e.name m) ((others_iff v rest full).0 fresh)),
                  to h,
                ),
                λ (alone, h). (
                  (others_iff v rest full).1
                      (alone refl v (guarded-IsMigration v e.name refl full)),
                  back h,
                ),
              )
      ]
    ]
