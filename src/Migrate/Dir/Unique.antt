-- ===== src/Migrate/Dir/Unique.antt =====
-- Which directories are loaded: those in which no two migrations have one version.
use orcacommon.Common.{
  ◌≡◌, ◌≢◌, refl, true, false, Option, none, some, List, [], ◌∷◌, is_empty, All, ◌↔◌, Bool-cases,
  Option-cases, inl, inr, ◌⊎◌, arith,
}
use orcacommon.Common.Text.{Text}
use orcacommon.Common.Text.Laws.{text_eq_iff}
use orcacommon.Migrate.Dir.{
  Entry, DirError, loaded, refused, unreadable, unwritten, Seen, find, clash, remember,
  guarded_version, load_file, load_entries, embed_dir,
}
use orcacommon.Migrate.Dir.Versions.{versions, Distinct, NoneTwice, NoneTwice-iff}

-- All files written, in their order.
unfoldable pub write_all : {D : Type 0} → (D → Text → Text → Option D) → List Entry → D → Option D
write_all write [] dir = some dir
write_all write (e ∷ rest) dir = elim e.is_dir [
  | true ↦ write_all write rest dir
  | false ↦ elim e.content [
    | none ↦ none
    | some text ↦ elim (write dir e.name text) [
      | none ↦ none
      | some dir' ↦ write_all write rest dir'
    ]
  ]
]

abbrev Fresh : Seen → List Text → Type 0
Fresh seen vs = All (λ v. find v seen ≡ none) vs

find-remember :
    (v name u : Text) (seen : Seen)
    → (find u ((v, name) ∷ seen) ≡ none) ↔ ((v ≢ u) × (find u seen ≡ none))
unfolding find
find-remember v name u seen = ground (arith, text_eq_iff v u)

Fresh-remember :
    (v name : Text) (seen : Seen) (vs : List Text)
    → Fresh ((v, name) ∷ seen) vs ↔ (All (λ u. v ≢ u) vs × Fresh seen vs)
Fresh-remember v name seen [] = (λ _. (tt, tt), λ _. tt)
Fresh-remember v name seen (u ∷ vs) =
    let (to, back) = find-remember v name u seen in
    let (to_rest, back_rest) = Fresh-remember v name seen vs in
    (
      λ (h, t). let (a, b) = to h in let (c, d) = to_rest t in ((a, c), (b, d)),
      λ ((a, c), (b, d)). (back (a, b), back_rest (c, d)),
    )

remember-empty : (v name : Text) (seen : Seen) → is_empty v ≡ true → remember v name seen ≡ seen
unfolding remember
remember-empty v name seen e = rw (e, remember) refl

remember-full :
    (v name : Text) (seen : Seen) → is_empty v ≡ false → remember v name seen ≡ (v, name) ∷ seen
unfolding remember
remember-full v name seen e = rw (e, remember) refl

module _ {D : Type 0} (write : D → Text → Text → Option D) where
  abbrev Loads : Seen → List Entry → D → D → Type 0
  Loads seen entries dir dir' =
      Fresh seen (versions entries)
      × Distinct (versions entries)
      × (write_all write entries dir ≡ some dir')

  -- A file is written, or the directory is refused and cannot be written.
  file_cases :
      (e : Entry) (rest : List Entry) (dir : D)
      → e.is_dir ≡ false
      → ((d : D) × (load_file write e dir ≡ loaded d)
          × (write_all write (e ∷ rest) dir ≡ write_all write rest d))
        ⊎ ((why : DirError) × (load_file write e dir ≡ refused why)
            × (write_all write (e ∷ rest) dir ≡ none))
  unfolding load_file write_all
  file_cases e rest dir regular = elim (Option-cases e.content) [
    | inl c ↦ inr (unreadable e.name, rw (c, load_file) refl, rw (regular, c, write_all) refl)
    | inr (text, c) ↦ elim (Option-cases (write dir e.name text)) [
      | inl w ↦
          inr (unwritten e.name, rw (c, w, load_file) refl, rw (regular, c, w, write_all) refl)
      | inr (d, w) ↦ inl (d, rw (c, w, load_file) refl, rw (regular, c, w, write_all) refl)
    ]
  ]

  abbrev Goal : Seen → List Entry → D → D → Type 0
  Goal seen entries dir dir' =
      (load_entries write seen entries dir ≡ loaded dir') ↔ Loads seen entries dir dir'

  unversioned :
      (seen : Seen) (e : Entry) (rest : List Entry) (dir d dir' : D)
      → e.is_dir ≡ false
      → is_empty (guarded_version e.name) ≡ true
      → load_file write e dir ≡ loaded d
      → write_all write (e ∷ rest) dir ≡ write_all write rest d
      → Goal seen rest d dir'
      → Goal seen (e ∷ rest) dir dir'
  unfolding load_entries versions clash
  unversioned seen e rest dir d dir' regular empty read written goal =
      rw
        (
          written,
          regular,
          empty,
          load_entries,
          versions,
          clash,
          read,
          remember-empty (guarded_version e.name) e.name seen empty,
        )
        goal

  known :
      (seen : Seen) (e : Entry) (rest : List Entry) (dir dir' : D) (first : Text)
      → e.is_dir ≡ false
      → is_empty (guarded_version e.name) ≡ false
      → find (guarded_version e.name) seen ≡ some first
      → Goal seen (e ∷ rest) dir dir'
  unfolding load_entries versions clash
  known seen e rest dir dir' first regular full found =
      rw (regular, full, found, load_entries, versions, clash)
        ((λ h. cc), (λ (fresh, _, _). cc (fresh.0, found)))

  unknown :
      (seen : Seen) (e : Entry) (rest : List Entry) (dir d dir' : D)
      → e.is_dir ≡ false
      → is_empty (guarded_version e.name) ≡ false
      → find (guarded_version e.name) seen ≡ none
      → load_file write e dir ≡ loaded d
      → write_all write (e ∷ rest) dir ≡ write_all write rest d
      → Goal ((guarded_version e.name, e.name) ∷ seen) rest d dir'
      → Goal seen (e ∷ rest) dir dir'
  unfolding load_entries versions clash
  unknown seen e rest dir d dir' regular full found read written (to, back) =
      let v = guarded_version e.name in
      let (split, merge) = Fresh-remember v e.name seen (versions rest) in
      rw
        (
          written,
          regular,
          full,
          found,
          load_entries,
          versions,
          clash,
          read,
          remember-full (guarded_version e.name) e.name seen full,
        )
        (
          λ h.
              let (fresh, distinct, w) = to h in
              let (other, old) = split fresh in ((refl, old), (other, distinct), w),
          λ (fresh, distinct, w). back (merge (distinct.0, fresh.1), distinct.1, w),
        )

  unwritable :
      (seen : Seen) (e : Entry) (rest : List Entry) (dir dir' : D) (why : DirError)
      → e.is_dir ≡ false
      → load_file write e dir ≡ refused why
      → write_all write (e ∷ rest) dir ≡ none
      → Goal seen (e ∷ rest) dir dir'
  unfolding load_entries
  unwritable seen e rest dir dir' why regular read written =
      elim (Option-cases (clash (guarded_version e.name) seen)) [
        | inl c ↦ rw (written, regular, load_entries, c, read) ((λ h. cc), (λ (_, _, h). cc))
        | inr (first, c) ↦ rw (written, regular, c, load_entries) ((λ h. cc), (λ (_, _, h). cc))
      ]

  load_entries_iff :
      (seen : Seen) (entries : List Entry) (dir dir' : D) → Goal seen entries dir dir'
  unfolding load_entries versions write_all
  load_entries_iff seen [] dir dir' = (λ h. (tt, tt, cc), λ (_, _, h). cc)
  load_entries_iff seen (e ∷ rest) dir dir' = elim (Bool-cases e.is_dir) [
    | inl sub ↦ rw (sub, load_entries, versions, write_all) (load_entries_iff seen rest dir dir')
    | inr regular ↦ elim (file_cases e rest dir regular) [
      | inr (why, read, written) ↦ unwritable seen e rest dir dir' why regular read written
      | inl (d, read, written) ↦ elim (Bool-cases (is_empty (guarded_version e.name))) [
        | inl empty ↦
            unversioned seen e rest dir d dir' regular empty read written
              (load_entries_iff seen rest d dir')
        | inr full ↦ elim (Option-cases (find (guarded_version e.name) seen)) [
          | inr (first, found) ↦ known seen e rest dir dir' first regular full found
          | inl found ↦
              unknown seen e rest dir d dir' regular full found read written
                (load_entries_iff ((guarded_version e.name, e.name) ∷ seen) rest d dir')
        ]
      ]
    ]
  ]

  Fresh-empty : (vs : List Text) → Fresh [] vs
  unfolding find
  Fresh-empty [] = tt
  Fresh-empty (v ∷ vs) = (refl, Fresh-empty vs)

-- A directory is loaded exactly if no two of its files are migrations of one version and all its
-- files can be read and written; then it holds all of them, in their order.
pub embed_dir_iff :
    {D : Type 0} (write : D → Text → Text → Option D) (entries : List Entry) (dir dir' : D)
    → (embed_dir write (some entries) dir ≡ loaded dir')
      ↔ (NoneTwice entries × (write_all write entries dir ≡ some dir'))
unfolding embed_dir
embed_dir_iff write entries dir dir' =
    let (to, back) = load_entries_iff write [] entries dir dir' in
    let (spread, gather) = NoneTwice-iff entries in
    (
      λ h. let (_, distinct, w) = to h in (spread distinct, w),
      λ (alone, w). back (Fresh-empty write (versions entries), gather alone, w),
    )
