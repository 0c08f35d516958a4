-- ===== src/Migrate/Revisions/Replay.antt =====
-- The table after any writes and deletions, and how it is listed.
use orcacommon.Common.{
  ◌≡◌, refl, ap, ◌∙◌, if◌then◌else◌, Bool, true, Option, none, some, List, [], ◌∷◌, arith,
  Bool-cases, inl, inr,
}
use orcacommon.Common.Text.{Text, text_eq}
use orcacommon.Common.Text.Laws.{text_eq_iff}
use orcacommon.Migrate.Revisions.{
  Revision, stored, RevisionDb, init_table, insert_by, order_by, read_revisions, Read, read_error,
  not_exist, found, find_row, read_revision, upsert, delete_row, write_revision, delete_revision,
}
use orcacommon.Migrate.Revisions.Map.{find_row-upsert, find_row-delete_row}

pub data Change : Type 0 where
  write : Revision → Change
  delete : Text → Change

-- The table is created, and changed by the last of the list first.
unfoldable pub replay : List Change → RevisionDb
replay [] = (init_table (record { is_up = true; rows = none })).1
replay (write r ∷ changes) = (write_revision r (replay changes)).1
replay (delete v ∷ changes) = (delete_revision v (replay changes)).1

-- What the changes, the latest first, make of a version.
unfoldable pub latest : Text → List Change → Read
latest v [] = not_exist
latest v (write r ∷ changes) = if text_eq r.version v then found (stored r) else latest v changes
latest v (delete u ∷ changes) = if text_eq u v then not_exist else latest v changes

-- The revision of a version in a list that was read.
abbrev pub listed : Text → Option (List Revision) → Read
listed v none = read_error
listed v (some rows) = find_row v rows

unfoldable row_list : List Change → List Revision
row_list [] = []
row_list (write r ∷ changes) = upsert (stored r) (row_list changes)
row_list (delete v ∷ changes) = delete_row v (row_list changes)

replay-rows :
    (changes : List Change)
    → replay changes ≡ record { is_up = true; rows = some (row_list changes) }
unfolding replay row_list init_table write_revision delete_revision
replay-rows [] = refl
replay-rows (write r ∷ changes) = ap (λ db. (write_revision r db).1) (replay-rows changes)
replay-rows (delete v ∷ changes) = ap (λ db. (delete_revision v db).1) (replay-rows changes)

find_row-row_list :
    (v : Text) (changes : List Change) → find_row v (row_list changes) ≡ latest v changes
unfolding row_list latest stored find_row
find_row-row_list v [] = refl
find_row-row_list v (write r ∷ changes) =
    rw (find_row-upsert v (stored r) (row_list changes), find_row-row_list v changes) refl
find_row-row_list v (delete u ∷ changes) =
    rw (find_row-delete_row v u (row_list changes), find_row-row_list v changes) refl

-- No version twice.
unfoldable IsKeyed : List Revision → Type 0
IsKeyed [] = Unit {0}
IsKeyed (r ∷ rows) = (find_row r.version rows ≡ not_exist) × IsKeyed rows

upsert-IsKeyed : (r : Revision) (rows : List Revision) → IsKeyed rows → IsKeyed (upsert r rows)
unfolding upsert IsKeyed find_row
upsert-IsKeyed r [] h = (refl, tt)
upsert-IsKeyed r (q ∷ rows) h = elim (Bool-cases (text_eq q.version r.version)) [
  | inl e ↦ rw (e) (ground (arith, h.0, text_eq_iff q.version r.version, e), h.1)
  | inr n ↦ rw (n) (
    find_row-upsert q.version r rows
        ∙ ground (arith, h.0, n, text_eq_iff q.version r.version, text_eq_iff r.version q.version),
    upsert-IsKeyed r rows h.1,
  )
]

delete_row-IsKeyed : (v : Text) (rows : List Revision) → IsKeyed rows → IsKeyed (delete_row v rows)
unfolding delete_row IsKeyed find_row
delete_row-IsKeyed v [] h = tt
delete_row-IsKeyed v (q ∷ rows) h = elim (Bool-cases (text_eq q.version v)) [
  | inl e ↦ rw (e) (delete_row-IsKeyed v rows h.1)
  | inr n ↦
      rw (n)
        (find_row-delete_row q.version v rows ∙ ground (arith, h.0), delete_row-IsKeyed v rows h.1)
]

row_list-IsKeyed : (changes : List Change) → IsKeyed (row_list changes)
unfolding row_list IsKeyed
row_list-IsKeyed [] = tt
row_list-IsKeyed (write r ∷ changes) =
    upsert-IsKeyed (stored r) (row_list changes) (row_list-IsKeyed changes)
row_list-IsKeyed (delete v ∷ changes) =
    delete_row-IsKeyed v (row_list changes) (row_list-IsKeyed changes)

module _ (before : Text → Text → Bool) where
  find_row-insert_by :
      (v : Text) (r : Revision) (rows : List Revision)
      → find_row r.version rows ≡ not_exist
      → find_row v (insert_by before r rows)
        ≡ (if text_eq r.version v then found r else find_row v rows)
  unfolding insert_by find_row
  find_row-insert_by v r [] h = refl
  find_row-insert_by v r (q ∷ rows) h = ground (
    arith,
    h,
    λ (n : find_row r.version rows ≡ not_exist). find_row-insert_by v r rows n,
    text_eq_iff q.version r.version,
    text_eq_iff q.version v,
    text_eq_iff r.version v,
  )

  find_row-order_by :
      (v : Text) (rows : List Revision)
      → IsKeyed rows
      → find_row v (order_by before rows) ≡ find_row v rows
  unfolding order_by find_row IsKeyed
  find_row-order_by v [] h = refl
  find_row-order_by v (r ∷ rows) h =
      find_row-insert_by v r (order_by before rows) (find_row-order_by r.version rows h.1 ∙ h.0)
      ∙ rw (find_row-order_by v rows h.1) refl

  -- After any writes and deletions a version reads as what was stored of its last write, and does not
  -- exist if it was deleted since or never written; and the list of all revisions, in whatever order
  -- of versions, has the same revision for it.
  pub read_revision-replay :
      (changes : List Change) (v : Text)
      → (read_revision v (replay changes) ≡ latest v changes)
        × (listed v (read_revisions before (replay changes)) ≡ latest v changes)
  unfolding read_revision read_revisions
  read_revision-replay changes v = rw (replay-rows changes) (
    find_row-row_list v changes,
    find_row-order_by v (row_list changes) (row_list-IsKeyed changes) ∙ find_row-row_list v changes,
  )
