-- ===== src/Migrate/Revisions.antt =====
-- postgres/migrate.go: `pgRevisions`, the table of the migrations that were applied. The database is
-- the rows of the table, none before it is created, and whether it answers; `before` is the order of
-- its texts. A point in time is stored in microseconds; the range of the INT columns is left out.
pub mod Map
pub mod Replay
mod Tests
use orcacommon.Common.{
  ℕ, ◌*◌, ◌/◌, if◌then◌else◌, Bool, true, false, Option, none, some, List, [], ◌∷◌, map, is_empty,
}
use orcacommon.Common.Text.{Text, text_eq}
use orcacommon.Common.Word.{ℤ}

-- `migrate.Revision`; a slice that is nil is none. Points in time are in nanoseconds.
pub record Revision : Type 0 where
  pub version : Text
  pub description : Text
  pub kind : ℕ
  pub applied : ℕ
  pub total : ℕ
  pub executed_at : ℕ
  pub execution_time : ℤ
  pub error : Text
  pub error_stmt : Text
  pub hash : Text
  pub partial_hashes : Option (List Text)
  pub operator_version : Text

abbrev pub or_no_hashes : Option (List Text) → Option (List Text)
or_no_hashes none = some []
or_no_hashes (some hashes) = some hashes

-- What is stored of a revision, and so read back.
unfoldable pub stored : Revision → Revision
stored r = record r {
  executed_at = r.executed_at / 1000 * 1000;
  partial_hashes = or_no_hashes r.partial_hashes;
}

pub record RevisionDb : Type 0 where
  pub is_up : Bool
  pub rows : Option (List Revision)

abbrev pub some_rows : Option (List Revision) → List Revision
some_rows none = []
some_rows (some rows) = rows

-- The rows, where a statement on the table succeeds.
abbrev pub answering : RevisionDb → Option (List Revision)
answering db = if db.is_up then db.rows else none

-- `init`: the table is created if it does not exist. `false` is an error.
unfoldable pub init_table : RevisionDb → Bool × RevisionDb
init_table db = elim db.is_up [
  | false ↦ (false, db)
  | true ↦ (true, record { is_up = true; rows = some (some_rows db.rows) })
]

-- `isEmpty`.
unfoldable pub is_empty_table : RevisionDb → Option Bool
is_empty_table db = elim (answering db) [ none ↦ none | some rows ↦ some (is_empty rows) ]

unfoldable pub insert_by : (Text → Text → Bool) → Revision → List Revision → List Revision
insert_by before r [] = r ∷ []
insert_by before r (q ∷ rows) =
    let rest = insert_by before r rows in
    if before r.version q.version then r ∷ q ∷ rows else q ∷ rest

unfoldable pub order_by : (Text → Text → Bool) → List Revision → List Revision
order_by before [] = []
order_by before (r ∷ rows) = insert_by before r (order_by before rows)

-- `ReadRevisions`.
unfoldable pub read_revisions : (Text → Text → Bool) → RevisionDb → Option (List Revision)
read_revisions before db = elim (answering db) [
  | none ↦ none
  | some rows ↦ some (order_by before rows)
]

pub data Read : Type 0 where
  read_error : Read
  not_exist : Read
  found : Revision → Read

unfoldable pub find_row : Text → List Revision → Read
find_row v [] = not_exist
find_row v (r ∷ rows) = if text_eq r.version v then found r else find_row v rows

-- `ReadRevision`.
unfoldable pub read_revision : Text → RevisionDb → Read
read_revision v db = elim (answering db) [ none ↦ read_error | some rows ↦ find_row v rows ]

-- The row is inserted, or the one with its version updated.
unfoldable pub upsert : Revision → List Revision → List Revision
upsert r [] = r ∷ []
upsert r (q ∷ rows) =
    let rest = upsert r rows in if text_eq q.version r.version then r ∷ rows else q ∷ rest

unfoldable pub delete_row : Text → List Revision → List Revision
delete_row v [] = []
delete_row v (r ∷ rows) =
    let rest = delete_row v rows in if text_eq r.version v then rest else r ∷ rest

-- `WriteRevision`.
unfoldable pub write_revision : Revision → RevisionDb → Bool × RevisionDb
write_revision r db = elim (answering db) [
  | none ↦ (false, db)
  | some rows ↦ (true, record db { rows = some (upsert (stored r) rows) })
]

-- `DeleteRevision`.
unfoldable pub delete_revision : Text → RevisionDb → Bool × RevisionDb
delete_revision v db = elim (answering db) [
  | none ↦ (false, db)
  | some rows ↦ (true, record db { rows = some (delete_row v rows) })
]
