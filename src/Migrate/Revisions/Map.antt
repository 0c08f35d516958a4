-- ===== src/Migrate/Revisions/Map.antt =====
-- What the rows have for a version after one was written or deleted.
use orcacommon.Common.{◌≡◌, refl, if◌then◌else◌, List, [], ◌∷◌, arith}
use orcacommon.Common.Text.{Text, text_eq}
use orcacommon.Common.Text.Laws.{text_eq_iff}
use orcacommon.Migrate.Revisions.{Revision, not_exist, found, find_row, upsert, delete_row}

pub find_row-upsert :
    (v : Text) (r : Revision) (rows : List Revision)
    → find_row v (upsert r rows) ≡ (if text_eq r.version v then found r else find_row v rows)
unfolding find_row upsert
find_row-upsert v r [] = refl
find_row-upsert v r (q ∷ rows) = ground (
  arith,
  find_row-upsert v r rows,
  text_eq_iff q.version r.version,
  text_eq_iff q.version v,
  text_eq_iff r.version v,
)

pub find_row-delete_row :
    (v u : Text) (rows : List Revision)
    → find_row v (delete_row u rows) ≡ (if text_eq u v then not_exist else find_row v rows)
unfolding find_row delete_row
find_row-delete_row v u [] = ground arith
find_row-delete_row v u (q ∷ rows) = ground (
  arith,
  find_row-delete_row v u rows,
  text_eq_iff q.version u,
  text_eq_iff q.version v,
  text_eq_iff u v,
)
